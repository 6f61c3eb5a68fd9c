-- ===== src/Converter/Outside.antt =====
-- What ConverterService uses of Qt: files, directories, the clock, QProcess, the event loop, and who
-- else holds a job handle or listens to its `finished`.
use pipelinerunner.Base.{ℕ, Bool, List, Option, String}

pub record Desktop : Type 1 where
  pub World : Type 0
  pub Time : Type 0
  -- Whether some QSharedPointer holds the handle.
  pub is_alive : World → ℕ → Bool
  -- The slots of `finished` of a handle, which has this result by then.
  pub on_finished : World → ℕ → Option String → World
  pub now : World → Time
  -- QUuid::createUuid().toString(QUuid::WithoutBraces)
  pub create_uuid : World → String × World
  pub time_text : World → String
  pub dir_exists : World → String → Bool
  pub mkpath : World → String → Bool × World
  pub remove_recursively : World → String → World
  pub copy : World → String → String → Bool × World
  pub start_process : World → String → List String → World
  -- QMetaObject::invokeMethod of `startJob`, queued.
  pub queue_start_job : World → World
  pub separator : String
  pub clean_path : String → String
  pub file_name : String → String
  pub base_name : String → String
  pub suffix : String → String
