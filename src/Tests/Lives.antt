-- ===== src/Tests/Lives.antt =====
-- The theorems about the life of the objects at concrete values.
use electric_maple.Common.{ℕ, ◌+◌, ◌≡◌, refl, true, false, none, some, List, [], ◌∷◌}
use electric_maple.Common.Int.{pos}
use electric_maple.Config.{ems_config_init_default}
use electric_maple.Connection.References.{at}
use electric_maple.Stream.{em_stream_client_init, Sample, texture_external_oes}
use electric_maple.Proto.{tracking_init_default, up_message_init_default}
use electric_maple.Devices.{tracking, UpMessageSuper}
use electric_maple.Devices.Hmd.{
  ems_hmd_create, ems_hmd_handle_data, receive_pose, receive_tracking, take_received,
  tracked_relation,
}
use electric_maple.Devices.Racing.{
  Race, Sequential, outside, leaving, tested, after_test, stores, tests, takes, writes, here, next,
  quiet, race-IsSequential,
}
use electric_maple.Stream.Bus.{GstState, eos, warning}
use electric_maple.Stream.Pull.{PullEnv}
use electric_maple.Stream.Mailbox.{
  Happening, arrives, pulls, drops, needs, mailbox_of, mailbox_seen, seen_of,
}
use electric_maple.Stream.Mailbox.Seen.{client-IsMailbox}
use electric_maple.Stream.Life.{
  Life, idle, serving, Egl, em_stream_client_new, em_stream_client_set_egl_context,
  em_stream_client_set_connection, em_stream_client_spawn_thread, em_stream_client_finalize,
}
use electric_maple.Stream.Life.Accounts.{
  count, held, Leaves, Reach, here, next, sets_egl, spawns, references_held, lost_refs,
}
use electric_maple.Source.{r8g8b8x8}
use electric_maple.Source.References.{Frames, FrameOp, push, free_buffer}
use electric_maple.Compositor.Creation.{CreateEnv, ems_compositor_create_system}
use electric_maple.Compositor.Creation.Parts.{IsSettled, creation-IsSettled}
use electric_maple.App.Startup.{StartEnv, IsLeft, android_main, main-IsLeft}
use electric_maple.Pipeline.Life.{EmsPipeline, by_watch, by_stop, ems_gstreamer_pipeline_stop}
use electric_maple.Pipeline.Life.Stopping.{ending, first_fatal, first_fatal_decides}

abbrev egl : Egl
egl = record { context = 3; makes_current = true; display = 4; wrapped = 5 }

abbrev fresh : Life
fresh = record {
  client = em_stream_client_init (pos 9);
  connection = none;
  gst_gl_display = none;
  gst_gl_wrapped_context = none;
  egl_context = none;
  play_thread = idle;
  handlers = [];
  taken = [];
  dropped = [];
  disconnected = [];
  misused = [];
}

abbrev with_egl : Life
with_egl = em_stream_client_set_egl_context egl fresh

abbrev spawned : Life
spawned = record (em_stream_client_set_connection (some 7) with_egl) { play_thread = serving }

abbrev playing : Life
playing = record spawned { client = record (em_stream_client_init (pos 9)) { pipeline = true } }

fresh_lem : em_stream_client_new true (pos 9) ≡ some fresh
unfolding em_stream_client_new
fresh_lem = refl

spawned_lem : em_stream_client_spawn_thread true (some 7) with_egl ≡ some spawned
unfolding em_stream_client_spawn_thread
spawned_lem = refl

spawned-Reach : Reach fresh spawned
spawned-Reach = next (next here (sets_egl egl)) (spawns (some 7) spawned_lem)

references_held_example :
    (count 5 spawned.taken ≡ count 5 spawned.dropped + held 5 spawned + lost_refs 5 spawned-Reach)
    × Leaves
        (λ d.
          count 5 d.taken
          ≡ count 5 d.dropped + at 5 spawned.gst_gl_wrapped_context + lost_refs 5 spawned-Reach)
        (em_stream_client_finalize (λ t. true) spawned)
references_held_example = references_held 5 true (pos 9) (λ t. true) fresh_lem spawned-Reach

abbrev pull_clocks : PullEnv
pull_clocks = record {
  current_time = pos 90;
  now_ns = pos 100;
  render_begin = pos 110;
  server_clock_offset = pos 5;
  decode = λ _. none;
  float_quotient = λ total n. pos 1;
}

-- A frame that is pushed, one whose meta cannot be added, and the first buffer is freed.
abbrev frame_ops : List FrameOp
frame_ops = push 100 true r8g8b8x8 [] 1 ∷ push 200 false r8g8b8x8 [] 2 ∷ free_buffer ∷ []

abbrev frames_left : Frames
frames_left = record {
  source = record { offset_ns = 100; timestamp_ns = 200 };
  in_pipeline = [];
  taken = 2 ∷ 1 ∷ [];
  given_back = 1 ∷ [];
}

abbrev no_pool : CreateEnv
no_pool = record {
  pacing_ok = true;
  bundle_ok = true;
  has_instance = true;
  has_device = true;
  has_mutex = true;
  cmd_pool_ok = false;
  shared_ok = true;
  config = ems_config_init_default;
  blend_modes = 1 ∷ [];
  rate = λ n. n;
  interval = 10;
  image_ok = true;
  factory_ok = true;
  system_ok = true;
}

creation-IsSettled_example : IsSettled (λ p. 1) no_pool (ems_compositor_create_system no_pool)
creation-IsSettled_example = creation-IsSettled (λ p. 1) no_pool (λ b. (refl, refl, refl))

abbrev all_well : StartEnv
all_well = record {
  egl_ok = true;
  loader_ok = true;
  instance_ok = true;
  configurations_ok = true;
  views_ok = true;
  view_count = 2;
  session_ok = true;
  stream_client_ok = true;
  egl_current = true;
  connection_ok = true;
  connects = true;
  thread_starts = true;
  experience_ok = true;
  stop_returns = true;
}

main-IsLeft_example : IsLeft all_well (android_main all_well)
main-IsLeft_example = main-IsLeft all_well

abbrev pipeline_of : EmsPipeline
pipeline_of = record {
  pipeline = 4;
  pipeline_state = GstState.playing;
  ntp = some 6;
  data_channel = none;
  timeout_src_id = none;
  main_loop = some 5;
  hooks = [];
  timers = [];
  threads = 1;
  providers = 6 ∷ [];
  recalculations = 0;
}

first_fatal_decides_example :
    ending (
      ems_gstreamer_pipeline_stop
        ((by_stop, warning) ∷ (by_watch 8, warning) ∷ (by_watch 8, eos) ∷ [])
        pipeline_of)
    ≡ first_fatal ((by_stop, warning) ∷ (by_watch 8, warning) ∷ (by_watch 8, eos) ∷ [])
first_fatal_decides_example =
    first_fatal_decides ((by_stop, warning) ∷ (by_watch 8, warning) ∷ (by_watch 8, eos) ∷ [])
      pipeline_of

abbrev sample_of : ℕ → Sample
sample_of k = record { id = k; meta = none; texture = 3; target = some texture_external_oes }

-- Two samples arrive and one is taken, the next one stays while there is no pipeline.
abbrev happenings : List Happening
happenings =
    needs 4 true true
    ∷ arrives (pos 20) (sample_of 1)
    ∷ arrives (pos 30) (sample_of 2)
    ∷ pulls pull_clocks
    ∷ pulls pull_clocks
    ∷ arrives (pos 40) (sample_of 3)
    ∷ drops
    ∷ pulls pull_clocks
    ∷ needs 5 true true
    ∷ pulls pull_clocks
    ∷ []

happenings_lem :
    mailbox_seen happenings (mailbox_of (em_stream_client_init (pos 9)))
    ≡ some (sample_of 2) ∷ none ∷ none ∷ some (sample_of 3) ∷ []
unfolding mailbox_seen em_stream_client_init
happenings_lem = refl

client-IsMailbox_example :
    seen_of happenings (em_stream_client_init (pos 9))
    ≡ some (mailbox_seen happenings (mailbox_of (em_stream_client_init (pos 9))))
unfolding em_stream_client_init
client-IsMailbox_example = client-IsMailbox happenings (em_stream_client_init (pos 9)) tt (
  (texture_external_oes, refl),
  ((texture_external_oes, refl), ((texture_external_oes, refl), tt)),
)

abbrev head_message : UpMessageSuper
head_message = record {
  proto_message = record up_message_init_default {
    tracking = some (record tracking_init_default {
      head_pose = some (record { position = none; orientation = none });
    });
  };
  hand_joint_locations_left = [];
  hand_joint_locations_right = [];
}

abbrev stored : Race → Race
stored r = record r {
  hmd = ems_hmd_handle_data tracking head_message r.hmd;
  received = head_message ∷ r.received;
}

-- A message is stored, a query finds it, another one is stored before the query takes the pose, and a third
-- one before it writes the result.
abbrev found : Race
found = let r = stored (quiet ems_hmd_create) in record r { phase = after_test r.hmd.updated }

abbrev taken_pose : Race
taken_pose =
    let r = stored found in record r { hmd = take_received (λ q. q) r.hmd; phase = leaving }

abbrev answered : Race
answered =
    let r = stored taken_pose in
    record r { phase = outside; returned = tracked_relation r.hmd ∷ r.returned }

found_lem : found.phase ≡ tested
unfolding ems_hmd_handle_data receive_tracking receive_pose
found_lem = refl

race-IsSequential_example :
    Sequential (λ q. q) ems_hmd_create answered.hmd answered.received answered.returned
race-IsSequential_example =
    race-IsSequential (λ q. q) ems_hmd_create answered
      (next
        (next
          (next
            (next
              (next (next here (stores tracking head_message (quiet ems_hmd_create)))
                (tests (stored (quiet ems_hmd_create)) refl))
              (stores tracking head_message found))
            (takes (stored found) found_lem))
          (stores tracking head_message taken_pose))
        (writes (stored taken_pose) refl))
      refl
