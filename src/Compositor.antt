-- ===== src/Compositor.antt =====
-- server/src/ems/ems_compositor.cpp: the compositor that copies the layers of a frame and pushes them into the
-- pipeline.
pub mod Commit
pub mod Message
pub mod System
pub mod Creation
use electric_maple.Common.{
  ℕ, ◌+◌, Bool, true, false, Option, none, some, List, [], ◌∷◌, ◌==◌, if◌then◌else◌,
}
use electric_maple.Common.Int.{ℤ, pos, wrap64, ◌+ℤ◌, ◌-ℤ◌}
use electric_maple.Config.{Size}
use electric_maple.Stream.{Pose, ProtoPose, DownMessage}
use electric_maple.Source.{
  Source, Buffer, Push, aborted, dropped, pushed, r8g8b8x8, new_source,
  ems_gstreamer_src_push_frame,
}

pub record Rect : Type 0 where
  pub offset_w : ℤ
  pub offset_h : ℤ
  pub extent_w : ℤ
  pub extent_h : ℤ

-- `struct xrt_layer_projection_view_data`
pub record ViewData : Type 0 where
  pub rect : Rect
  pub array_index : ℕ
  pub image_index : ℕ
  pub pose : Pose

pub data LayerType : Type 0 where
  projection projection_depth other_layer : LayerType

-- `struct comp_layer`: a swapchain has an image for each index.
pub record Layer : Type 0 where
  pub layer_type : LayerType
  pub left : ViewData
  pub right : ViewData
  pub left_images : ℕ → ℕ
  pub right_images : ℕ → ℕ
  pub flip_y : Bool

pub record BlitSource : Type 0 where
  pub image : ℕ
  pub base_array_layer : ℕ
  pub rect : Rect

-- The calls that the compositor makes, of which a log has the newest first. A frame of the pool is
-- a number.
pub data CompositorCall : Type 0 where
  get_frame unref_frame copy_bounce_to barrier_frame : ℕ → CompositorCall
  blit_side_by_side : BlitSource → BlitSource → Size → CompositorCall
  barrier_view : ℕ → ℕ → CompositorCall
  lock_pool unlock_pool play_pipeline : CompositorCall
  push_frame : ℕ → DownMessage → CompositorCall

-- `struct ems_compositor`, with the calls so far and the buffers that reached appsrc, the newest first.
pub record Compositor : Type 0 where
  pub offset_ns : ℕ
  pub gstreamer_src : Source
  pub cmd_pool_locked : Bool
  pub pipeline_playing : Bool
  pub calls : List CompositorCall
  pub buffers : List Buffer

-- As `ems_compositor_create_system` leaves it.
unfoldable pub new_compositor : Compositor
new_compositor = record {
  offset_ns = 0;
  gstreamer_src = new_source;
  cmd_pool_locked = false;
  pipeline_playing = false;
  calls = [];
  buffers = [];
}

-- What the calls answer: the clocks, the pool's frame if one is unused, whether the command buffer can be
-- begun and submitted, whether a meta can be added; and nanopb's encoding of a down message, whose buffer
-- has the largest size that one can have.
pub record PackEnv : Type 0 where
  pub now : ℕ
  pub unused_frame : Option ℕ
  pub begins : Bool
  pub submits : Bool
  pub system_clock : ℤ
  pub pipeline_clock : ℤ
  pub push_now : ℕ
  pub adds_meta : Bool
  pub encode : DownMessage → List ℕ

abbrev pub log : CompositorCall → Compositor → Compositor
log call c = record c { calls = call ∷ c.calls }

unfoldable pub to_proto : Pose → ProtoPose
to_proto p = record { position = some p.position; orientation = some p.orientation }

-- The offset of the compositor's first frame is also the source's.
unfoldable pub set_offset : ℕ → Compositor → Compositor
set_offset now c =
    if c.offset_ns == 0
    then record c { offset_ns = now; gstreamer_src = record c.gstreamer_src { offset_ns = now } }
    else c

unfoldable pub flip_rect : Rect → Rect
flip_rect r = record r { offset_h = r.offset_h +ℤ r.extent_h; extent_h = pos 0 -ℤ r.extent_h }

unfoldable pub blit_source : Bool → ViewData → (ℕ → ℕ) → BlitSource
blit_source flip_y v images = record {
  image = images v.image_index;
  base_array_layer = v.array_index;
  rect = if flip_y then flip_rect v.rect else v.rect;
}

-- The commands between the begin and the submit.
unfoldable pub record_commands : Size → ℕ → Layer → Compositor → Compositor
record_commands size frame l c = record c {
  calls =
      barrier_frame frame
      ∷ barrier_view (l.right_images l.right.image_index) l.right.array_index
      ∷ barrier_view (l.left_images l.left.image_index) l.left.array_index
      ∷ copy_bounce_to frame
      ∷ blit_side_by_side (blit_source l.flip_y l.left l.left_images)
          (blit_source l.flip_y l.right l.right_images) size
      ∷ c.calls;
}

unfoldable pub down_message : ℤ → ℤ → PackEnv → Layer → DownMessage
down_message frame_id begin_ns e l = record {
  frame_data = some (record {
    frame_sequence_id = frame_id;
    view_poses_count = 2;
    view_pose0 = to_proto l.left.pose;
    view_pose1 = to_proto l.right.pose;
    render_begin_time = begin_ns;
    frame_push_time = e.system_clock;
    frame_push_clock_time = e.pipeline_clock;
    server_system_clock_pipeline_clock_offset = wrap64 (e.system_clock -ℤ e.pipeline_clock);
  });
}

unfoldable pub play_first : Compositor → Compositor
play_first c =
    if c.pipeline_playing then c else log play_pipeline (record c { pipeline_playing = true })

-- The pool's frames are R8G8B8X8; a failed assertion would end the program.
unfoldable pub take_push : Push → Compositor → Option Compositor
take_push aborted c = none
take_push (dropped gs) c = some (record c { gstreamer_src = gs })
take_push (pushed gs b) c = some (record c { gstreamer_src = gs; buffers = b ∷ c.buffers })

unfoldable pub unref_after : ℕ → Option Compositor → Option Compositor
unref_after frame none = none
unref_after frame (some c) = some (log (unref_frame frame) c)

unfoldable pub push_message : ℕ → PackEnv → DownMessage → Compositor → Option Compositor
push_message frame e m c = unref_after frame (
    take_push
      (ems_gstreamer_src_push_frame e.push_now e.adds_meta r8g8b8x8 (e.encode m) c.gstreamer_src)
      (log (push_frame frame m) c))

unfoldable pub submit_commands : ℤ → ℤ → ℕ → PackEnv → Layer → Compositor → Option Compositor
submit_commands frame_id begin_ns frame e l c =
    let unlocked = log unlock_pool (record c { cmd_pool_locked = false }) in
    if e.submits
    then push_message frame e (down_message frame_id begin_ns e l) (play_first unlocked)
    else some (log (unref_frame frame) unlocked)

-- A failed begin returns with the pool locked.
unfoldable pub begin_commands : Size → ℤ → ℤ → ℕ → PackEnv → Layer → Compositor → Option Compositor
begin_commands size frame_id begin_ns frame e l c =
    if e.begins
    then submit_commands frame_id begin_ns frame e l (record_commands size frame l c)
    else some (log (unref_frame frame) c)

-- The lock is not recursive: `none` is a wait that does not end, or the failed assertion.
unfoldable pub with_frame :
    Size → ℤ → ℤ → Option ℕ → PackEnv → Layer → Compositor → Option Compositor
with_frame size frame_id begin_ns none e l c = some c
with_frame size frame_id begin_ns (some frame) e l c =
    if c.cmd_pool_locked
    then none
    else begin_commands size frame_id begin_ns frame e l
        (log lock_pool (log (get_frame frame) (record c { cmd_pool_locked = true })))

unfoldable pub pack_blit_and_encode :
    Size → ℤ → ℤ → PackEnv → Layer → Compositor → Option Compositor
pack_blit_and_encode size frame_id begin_ns e l c =
    with_frame size frame_id begin_ns e.unused_frame e l (set_offset e.now c)

-- One turn of the loop over the layers.
unfoldable pub commit_layer :
    Size → ℤ → ℤ → LayerType → PackEnv → Layer → Compositor → Option Compositor
commit_layer size frame_id begin_ns projection e l c =
    pack_blit_and_encode size frame_id begin_ns e l c
commit_layer size frame_id begin_ns projection_depth e l c =
    pack_blit_and_encode size frame_id begin_ns e l c
commit_layer size frame_id begin_ns other_layer e l c = some c

abbrev pub then_commit : (Compositor → Option Compositor) → Option Compositor → Option Compositor
then_commit f none = none
then_commit f (some c) = f c

-- Each layer comes with what the calls answer in its turn.
unfoldable pub ems_compositor_layer_commit :
    Size → ℤ → ℤ → List (PackEnv × Layer) → Compositor → Option Compositor
ems_compositor_layer_commit size frame_id begin_ns [] c = some c
ems_compositor_layer_commit size frame_id begin_ns ((e, l) ∷ ls) c =
    then_commit (ems_compositor_layer_commit size frame_id begin_ns ls)
      (commit_layer size frame_id begin_ns l.layer_type e l c)
