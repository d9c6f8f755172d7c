-- ===== src/Stream/Lifecycle.antt =====
-- client/src/em/em_stream_client.c: how the stream client makes its pipeline and gives it up.
use electric_maple.Common.{ℕ, ◌≡◌, refl, Bool, true, false, Option, none, some}
use electric_maple.Stream.{StreamClient, on_drop_pipeline_cb}
use electric_maple.Stream.Pull.{PullEnv, nothing, em_stream_client_try_pull_sample}
use electric_maple.Stream.Samples.{HandsOver, try_pull-HandsOver}

-- The pads of the depayloader on which probes were put, and the pipeline that is handed over.
pub record Made : Type 0 where
  pub client : StreamClient
  pub sink_probe : Bool
  pub src_probe : Bool
  pub set_pipeline : ℕ

-- The parsed pipeline, and whether the depayloader's pads are found; `none` is the abort.
unfoldable pub on_need_pipeline_cb : Option ℕ → Bool → Bool → StreamClient → Option Made
on_need_pipeline_cb none sink src sc = none
on_need_pipeline_cb (some pipeline) sink src sc = some (record {
  client = record sc {
    pipeline = true;
    appsink = true;
    received_first_frame = false;
    pipeline_is_running = true;
  };
  sink_probe = sink;
  src_probe = src;
  set_pipeline = pipeline;
})

-- The client of a pipeline that was made.
abbrev pub remade : Option Made → StreamClient → StreamClient
remade none sc = sc
remade (some m) sc = m.client

-- When the pipeline is dropped, a pull returns no frame and changes nothing, until a new pipeline is
-- made; and then a pull hands over the sample that the old pipeline left in the slot, if there is one, or
-- fails its assertion.
pub sample_outlives_pipeline :
    (e : PullEnv) (pipeline : ℕ) (sink src : Bool) (sc : StreamClient)
    → (em_stream_client_try_pull_sample e (on_drop_pipeline_cb sc)
        ≡ nothing (on_drop_pipeline_cb sc))
      × HandsOver sc.sample (
          em_stream_client_try_pull_sample e
            (remade (on_need_pipeline_cb (some pipeline) sink src (on_drop_pipeline_cb sc)) sc))
unfolding em_stream_client_try_pull_sample on_drop_pipeline_cb on_need_pipeline_cb
sample_outlives_pipeline e pipeline sink src sc = (
  refl,
  try_pull-HandsOver e
      (remade (on_need_pipeline_cb (some pipeline) sink src (on_drop_pipeline_cb sc)) sc),
)
