-- ===== src/Examples/Jobs.antt =====
-- The theorems on the runner and the converter at small services.
use pipelinerunner.Base.{
  ℕ, ◌+◌, ◌≡◌, refl, ◌⊎◌, Bool, true, false, List, [], ◌∷◌, some, none, String, string_eq, nat_eq,
  lookup, erase, is_some,
}
use pipelinerunner.Runner.Outside.{Services}
use pipelinerunner.Toolkit.Value.{Fields}
use pipelinerunner.Runner.{RunnerService, handle_job_message, handle_job_finished, send_result}
use pipelinerunner.Runner.Tables.{
  SameTables, IsDelivered, Refuses, Records, job_of, tag_of, handle_job_message_cases,
  handle_job_finished_cases,
}
use pipelinerunner.Runner.Orphans.{
  Call, job_message, job_finished, connection_broken, run, ServiceIsFiled, run-ServiceIsFiled,
  no_jobs-ServiceIsFiled, aborted-IsOrphan,
}
use pipelinerunner.Converter.Outside.{Desktop}
use pipelinerunner.Converter.{
  Converter, JobHandle, end_job, handle_process_error, handle_process_finished,
}
use pipelinerunner.Converter.Crash.{crash_of_last_job}
use pipelinerunner.Converter.Queue.{Process, Ends, end_job-Ends}
use pipelinerunner.Examples.SampleQt.{sample_qt}

abbrev sample_services : Services sample_qt
sample_services = record {
  World = ℕ;
  create_uuid = λ w. ("9f0", w + 1);
  has_converter = λ w. true;
  register_job_message = λ w m. (some 3, w + 1);
  process_job_message = λ w h. (true, w + 1);
  connect_finished = λ w h. w;
  message_of = λ w h. record { message_id = "7d4"; input_file = "a.tif" };
  result_of = λ w h. some "b.tif";
  has_rabbit = λ w. true;
  pub_queue_sender = λ w. (some 1, w);
  sub_queue_listener = λ w. (some 2, w);
  publish = λ w sender body ttl priority persistent. (true, w + 1);
  confirm_receiving = λ w l tag. w + 1;
  messages = λ w l. [];
}

abbrev idle : RunnerService sample_qt sample_services
idle = record { listener_handler = some 2; jobs = []; jobs_delivery_tags = []; world = 0 }

-- A job runs for the message that came with the tag 5.
abbrev busy : RunnerService sample_qt sample_services
busy = record {
  listener_handler = some 2;
  jobs = ("7d4", 3) ∷ [];
  jobs_delivery_tags = ("7d4", 5) ∷ [];
  world = 0;
}

abbrev one_call : List (Call sample_qt sample_services)
one_call = job_message [] 0 6 ∷ job_finished (some 3) ∷ connection_broken ∷ []

handle_job_message_cases_example :
    (s' : RunnerService sample_qt sample_services) × (handle_job_message sample_qt sample_services
        idle
        (1 ∷ [])
        0
        6
      ≡ some s')
    × ((SameTables sample_qt sample_services idle s'
          × (w : ℕ) × Refuses sample_qt sample_services idle (sample_qt.parse_object (1 ∷ [])) 0 6 w
          × (s'.world ≡ w + 1))
        ⊎ ((obj : Fields ℕ) × (u : String) × IsDelivered sample_qt sample_services
              (sample_qt.parse_object (1 ∷ []))
              0
              6
              obj
              u
            × Records sample_qt sample_services obj u 6 idle s'))
handle_job_message_cases_example =
    handle_job_message_cases sample_qt sample_services idle (1 ∷ []) 0 6 2 refl

handle_job_finished_cases_example :
    (s' : RunnerService sample_qt sample_services) × (handle_job_finished sample_qt sample_services
        busy
        (some 3)
      ≡ some s')
    × (((s' ≡ busy)
          × ((job_of sample_qt sample_services busy "7d4" ≡ none)
              ⊎ (tag_of sample_qt sample_services busy "7d4" ≡ none)))
        ⊎ ((is_some (job_of sample_qt sample_services busy "7d4") ≡ true)
            × (s'.listener_handler ≡ some 2)
            × (s'.jobs ≡ erase "7d4" busy.jobs)
            × (s'.jobs_delivery_tags ≡ erase "7d4" busy.jobs_delivery_tags)
            × (tag : ℕ) × (tag_of sample_qt sample_services busy "7d4" ≡ some tag)
            × (s'.world ≡ send_result sample_qt sample_services 0 (some "b.tif") + 1)))
handle_job_finished_cases_example =
    handle_job_finished_cases sample_qt sample_services busy 3 2 refl

run-ServiceIsFiled_example :
    (s' : RunnerService sample_qt sample_services) × (run sample_qt sample_services idle one_call
      ≡ some s')
    × (s'.listener_handler ≡ some 2)
    × ServiceIsFiled sample_qt sample_services s'
run-ServiceIsFiled_example =
    run-ServiceIsFiled sample_qt sample_services idle one_call 2 refl
      (no_jobs-ServiceIsFiled sample_qt sample_services idle refl)

aborted-IsOrphan_example :
    (s' : RunnerService sample_qt sample_services) × (run sample_qt sample_services busy
        (connection_broken ∷ one_call)
      ≡ some s')
    × (is_some (tag_of sample_qt sample_services s' "7d4") ≡ true)
    × (is_some (job_of sample_qt sample_services s' "7d4") ≡ false)
unfolding lookup string_eq
aborted-IsOrphan_example =
    aborted-IsOrphan sample_qt sample_services busy "7d4" one_call 2 refl refl

-- The world is whether the process runs.
abbrev pub sample_desktop : Desktop
sample_desktop = record {
  World = Bool;
  Time = ℕ;
  is_alive = λ w h. true;
  on_finished = λ w h result. w;
  now = λ w. 8;
  create_uuid = λ w. ("9f0", w);
  time_text = λ w. "12:00";
  dir_exists = λ w path. false;
  mkpath = λ w path. (true, w);
  remove_recursively = λ w path. w;
  copy = λ w from to. (true, w);
  start_process = λ w program args. true;
  queue_start_job = λ w. w;
  separator = "/";
  clean_path = λ path. path;
  file_name = λ path. path;
  base_name = λ path. path;
  suffix = λ path. path;
}

abbrev pub sample_process : Process sample_desktop
sample_process = record { is_running = λ w. w; start_runs = λ w program args. refl }

abbrev pub sample_job : JobHandle sample_qt sample_desktop
sample_job = record {
  start_time = none;
  end_time = none;
  message = record { message_id = "7d4"; input_file = "a.tif" };
  result = none;
}

-- Two jobs wait; the first one's process has ended.
abbrev pub two_jobs : Converter sample_qt sample_desktop
two_jobs = record {
  config = record {
    rabbit_host = "::1";
    rabbit_port = 5672;
    rabbit_login = "guest";
    rabbit_password = "secret";
    sub_queue_name = "in";
    pub_queue_name = "out";
    converter_path = "convert.py";
    data_storage = "data";
  };
  job_env = record {
    tmp_dir = "t";
    input_tmp_dir = "t/input/";
    output_tmp_dir = "t/output/";
    input_tmp_file = "t/input/a";
    output_tmp_file = "t/output/a";
  };
  received_messages = 0 ∷ 1 ∷ [];
  handles = (0, sample_job) ∷ (1, sample_job) ∷ [];
  next_handle = 2;
  world = false;
}

end_job-Ends_example :
    (s' : Converter sample_qt sample_desktop) × (end_job sample_qt sample_desktop two_jobs
        (some "b.tif")
      ≡ some s')
    × Ends sample_qt sample_desktop sample_process 0 (1 ∷ []) (some "b.tif") two_jobs s'
end_job-Ends_example =
    end_job-Ends sample_qt sample_desktop sample_process two_jobs 0 (1 ∷ []) (some "b.tif") refl

crash_of_last_job_example :
    (s' : Converter sample_qt sample_desktop) × (handle_process_error sample_qt sample_desktop
        (record two_jobs { received_messages = 0 ∷ [] })
      ≡ some s')
    × (s'.received_messages ≡ [])
    × (handle_process_finished sample_qt sample_desktop s' 9 false ≡ none)
crash_of_last_job_example =
    crash_of_last_job sample_qt sample_desktop (record two_jobs { received_messages = 0 ∷ [] }) 0 9
      refl
