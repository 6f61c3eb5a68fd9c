-- ===== src/Converter.antt =====
-- src/PipelineRunnerPlugins/ConverterPlugin/Service: converterservice.h, converterservice.cpp,
-- jobhandle.h and jobhandle.cpp. A job handle is a number; the objects behind the handles are a table.
-- `none` is undefined behaviour, `front()` or `pop()` of an empty std::queue.
pub mod Outside
pub mod Handles
pub mod Steps
pub mod Retiring
pub mod Queue
pub mod Drops
pub mod History
pub mod Started
pub mod Crash
use Prim.Native.String.{◌++◌ as append}
use pipelinerunner.Base.{
  ℕ, suc, ◌+◌, Bool, true, false, not, ◌&&◌, List, [], ◌∷◌, ◌++◌, Option, none, some, String, Dict,
  lookup, insert, nat_eq, string_eq, ◌==◌, ◌=ℕ=◌, if◌then◌else◌, is_some,
}
use pipelinerunner.Qt.{Qt}
use pipelinerunner.Common.Message.{Message}
use pipelinerunner.Common.Config.{Config}
use Outside.{Desktop}

pub record JobEnv : Type 0 where
  pub tmp_dir : String
  pub input_tmp_dir : String
  pub output_tmp_dir : String
  pub input_tmp_file : String
  pub output_tmp_file : String

-- `tmp_dir_template`
tmp_dir_of : String → String
tmp_dir_of uuid = append "/tmp/" (append uuid "/")

-- `output_file_template`
output_file : String → String → String → String → String → String
output_file dir base converter time suffix = append dir (
    append "/" (
      append base
        (append "-[" (append converter (append "]-[" (append time (append "]." suffix)))))))

module _ (qt : Qt) (desktop : Desktop) where
  open desktop use {World, Time}

  pub record JobHandle : Type 0 where
    pub start_time : Option Time
    pub end_time : Option Time
    pub message : Message qt
    pub result : Option String

  pub record Converter : Type 0 where
    pub config : Config qt
    pub job_env : JobEnv
    pub received_messages : List ℕ
    pub handles : Dict ℕ JobHandle
    pub next_handle : ℕ
    pub world : World

  -- `JobEnv::clear`: the directories and the input file, not the output file.
  clear : Converter → Converter
  clear s =
      let env = s.job_env in
      if env.tmp_dir == "" then s else record s {
        job_env = record env {
          tmp_dir = "";
          input_tmp_dir = "";
          output_tmp_dir = "";
          input_tmp_file = "";
        };
        world = desktop.remove_recursively s.world env.tmp_dir;
      }

  -- `registerJobMessage`, with the constructor of JobHandle.
  unfoldable pub register_job_message : Converter → Message qt → Converter × ℕ
  register_job_message s m = (
    record s {
      handles =
          insert s.next_handle
            (record { start_time = none; end_time = none; message = m; result = none }) s.handles;
      next_handle = s.next_handle + 1;
    },
    s.next_handle,
  )

  -- `processJobMessage`, on the handle after the cast. The first job has `startJob` queued.
  unfoldable pub process_job_message : Converter → Option ℕ → Converter × Bool
  process_job_message s none = (s, false)
  process_job_message s (some h) =
      let queue = s.received_messages ++ h ∷ [] in
      let s' = record s { received_messages = queue } in
      (
        elim s.received_messages [
          | [] ↦ record s' { world = desktop.queue_start_job s.world }
          | x ∷ xs ↦ s'
        ],
        true,
      )

  -- `currentJob`: the handle at the front, while somebody still holds it.
  abbrev pub is_needed : Converter → ℕ → Bool
  is_needed s h = desktop.is_alive s.world h

  -- A change of the object behind a handle.
  pub change : Converter → ℕ → (JobHandle → JobHandle) → Converter
  change s h f = elim (lookup h s.handles) [
    | none ↦ s
    | some j ↦ record s { handles = insert h (f j) s.handles }
  ]

  -- `JobHandle::start`
  start_handle : Converter → ℕ → Converter
  start_handle s h = change s h (λ j. record j { start_time = some (desktop.now s.world) })

  -- `JobHandle::finish`; the slots that `finished` runs are the desktop's.
  finish_handle : Converter → ℕ → Option String → Converter
  finish_handle s h result =
      let s' =
        change s h (λ j. record j { result = result; end_time = some (desktop.now s.world) }) in
      record s' { world = desktop.on_finished s'.world h result }

  notify_job : Converter → ℕ → Converter × Bool
  unfolding start_handle
  notify_job s h = if is_needed s h then (start_handle s h, true) else (s, false)

  -- `createDirIfNotExists`
  create_dir_if_not_exists : Converter → String → Converter × Bool
  create_dir_if_not_exists s path =
      if desktop.dir_exists s.world path
      then (s, true)
      else (let (made, w) = desktop.mkpath s.world path in (record s { world = w }, made))

  message_file : Option JobHandle → String
  message_file none = ""
  message_file (some j) = j.message.input_file

  -- The end of `createEnv`, with both directories there.
  copy_input : Converter → ℕ → Converter × Bool
  unfolding message_file
  copy_input s h =
      let env = s.job_env in
      let input = desktop.clean_path (
        append s.config.data_storage
          (append desktop.separator (message_file (lookup h s.handles)))) in
      let input_tmp = append env.input_tmp_dir (desktop.file_name input) in
      let output_tmp = desktop.clean_path (
        output_file env.output_tmp_dir (desktop.base_name input)
          (desktop.base_name s.config.converter_path) (desktop.time_text s.world)
          (desktop.suffix input)) in
      let (copied, w) = desktop.copy s.world input input_tmp in
      (
        record s {
          job_env = record env { input_tmp_file = input_tmp; output_tmp_file = output_tmp };
          world = w;
        },
        copied,
      )

  -- The first lines of `createEnv`: the names of the job's directories.
  name_dirs : Converter → Converter
  name_dirs s =
      let (uuid, w) = desktop.create_uuid s.world in
      let dir = tmp_dir_of uuid in
      record s {
        job_env = record (s.job_env) {
          tmp_dir = dir;
          input_tmp_dir = append dir "input/";
          output_tmp_dir = append dir "output/";
        };
        world = w;
      }

  -- `if (!step()) return false;`, and then the rest.
  guarded : Converter × Bool → (Converter → Converter × Bool) → Converter × Bool
  guarded (s, true) f = f s
  guarded (s, false) f = (s, false)

  make_env : Converter → ℕ → Converter × Bool
  make_env s h =
      guarded (create_dir_if_not_exists s s.job_env.input_tmp_dir) λ s'.
        guarded (create_dir_if_not_exists s' s'.job_env.output_tmp_dir) λ s''. copy_input s'' h

  create_env : Converter → ℕ → Converter × Bool
  create_env s h = if is_needed s h then make_env (name_dirs s) h else (s, false)

  start_converter : Converter → ℕ → Converter × Bool
  start_converter s h =
      if is_needed s h
      then (let args =
            s.config.converter_path ∷ s.job_env.input_tmp_file ∷ s.job_env.output_tmp_file ∷ [] in
          (record s { world = desktop.start_process s.world "python3" args }, true))
      else (s, false)

  -- The three steps of `startJob` on the job at the front; false where one of them fails.
  pub begin : Converter → ℕ → Converter × Bool
  begin s h = guarded (notify_job s h) λ s'. guarded (create_env s' h) λ s''. start_converter s'' h

  -- `endJob` up to the pop of the job `h` at the front, before `rest`.
  pub retire : Converter → ℕ → List ℕ → Option String → Converter
  retire s h rest result =
      let s' = clear (if is_needed s h then finish_handle s h result else s) in
      record s' { received_messages = rest }

  -- `startJob` and `endJob` call each other until a job starts or the queue, which is given, is empty.
  pub proceed : List ℕ → Converter → Converter
  proceed [] s = s
  proceed (h ∷ rest) s =
      let (s', begun) = begin s h in
      elim begun [ true ↦ s' | false ↦ proceed rest (retire s' h rest none) ]

  pub starting : List ℕ → Converter → Option Converter
  starting [] s = none
  starting (h ∷ rest) s = some (proceed (h ∷ rest) s)

  unfoldable pub start_job : Converter → Option Converter
  unfolding starting
  start_job s = starting s.received_messages s

  pub ending : List ℕ → Converter → Option String → Option Converter
  ending [] s result = none
  ending (h ∷ rest) s result = some (proceed rest (retire s h rest result))

  unfoldable pub end_job : Converter → Option String → Option Converter
  unfolding ending
  end_job s result = ending s.received_messages s result

  copying : List ℕ → Converter → Option (Converter × Option String)
  copying [] s = none
  copying (h ∷ rest) s =
      if is_needed s h
      then (let name = desktop.file_name s.job_env.output_tmp_file in
          let target =
            desktop.clean_path (append s.config.data_storage (append desktop.separator name)) in
          let (copied, w) = desktop.copy s.world s.job_env.output_tmp_file target in
          some (record s { world = w }, if copied then some name else none))
      else some (s, none)

  -- `copyResultFile`
  unfoldable pub copy_result_file : Converter → Option (Converter × Option String)
  unfolding copying
  copy_result_file s = copying s.received_messages s

  -- `handleProcessFinished`; the flag says whether the exit was normal.
  unfoldable pub handle_process_finished : Converter → ℕ → Bool → Option Converter
  handle_process_finished s exit_code normal =
      if exit_code =ℕ= 0 && normal
      then (elim (copy_result_file s) [ none ↦ none | some (s', result) ↦ end_job s' result ])
      else end_job s none

  -- `handleProcessError`
  unfoldable pub handle_process_error : Converter → Option Converter
  handle_process_error s = end_job s none
