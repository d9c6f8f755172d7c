-- ===== src/App/Startup.antt =====
-- client/src/main.cpp: the start-up of `android_main`, its early returns, and what it gives back at the end. The
-- references are counted: those of android_main, of the stream client and of the remote experience.
use electric_maple.Common.{ℕ, ◌+◌, ◌-◌, ◌≡◌, Bool, true, false, arith, ◌==◌, ◌&&◌, if◌then◌else◌}

-- The references to the program's own objects, and the objects of OpenXR that are there.
pub record Account : Type 0 where
  pub egl_refs : ℕ
  pub connection_refs : ℕ
  pub stream_client_refs : ℕ
  pub instance_there : Bool
  pub session_there : Bool
  pub thread_attached : Bool

-- What the calls answer. Of a stream client, a connection and a thread it is told whether the assertions on their
-- thread helpers and on ENet hold; `stop_returns` is whether stopping the stream client comes back.
pub record StartEnv : Type 0 where
  pub egl_ok : Bool
  pub loader_ok : Bool
  pub instance_ok : Bool
  pub configurations_ok : Bool
  pub views_ok : Bool
  pub view_count : ℕ
  pub session_ok : Bool
  pub stream_client_ok : Bool
  pub egl_current : Bool
  pub connection_ok : Bool
  pub connects : Bool
  pub thread_starts : Bool
  pub experience_ok : Bool
  pub stop_returns : Bool

-- `android_main` returns before its main loop or after it, aborts, or waits for the stream client for good.
pub data Main : Type 0 where
  returns_early : Account → Main
  returns_late : Account → Main
  aborts waits : Main

abbrev pub attached : Account
attached = record {
  egl_refs = 0;
  connection_refs = 0;
  stream_client_refs = 0;
  instance_there = false;
  session_there = false;
  thread_attached = true;
}

-- `em_stream_client_finalize` drops the references to the connection and to the EGL context.
unfoldable pub finalize_stream_client : Account → Account
finalize_stream_client a = record a {
  stream_client_refs = 0;
  connection_refs = a.connection_refs - 1;
  egl_refs = a.egl_refs - 1;
}

-- The references that the destruction of the remote experience drops: the only one to the stream client, which is
-- finalized, and its own to the connection and to the EGL context.
unfoldable pub destroy_experience : Account → Account
destroy_experience a =
    let finalized = finalize_stream_client a in
    record finalized {
      connection_refs = finalized.connection_refs - 1;
      egl_refs = finalized.egl_refs - 1;
    }

-- The clean-up after the main loop.
unfoldable pub clean_up : StartEnv → Account → Main
clean_up e a =
    let cleared = record a { connection_refs = a.connection_refs - 1 } in
    let destroyed = destroy_experience cleared in
    if e.stop_returns
    then returns_late
        (record destroyed { egl_refs = destroyed.egl_refs - 1; thread_attached = false })
    else waits

-- A remote experience takes a reference to the connection and one to the EGL context, and is destroyed when its
-- creation fails.
unfoldable pub start_experience : StartEnv → Account → Main
start_experience e a =
    let referenced = record a {
      connection_refs = a.connection_refs + 1;
      egl_refs = a.egl_refs + 1;
    } in
    if e.experience_ok
    then clean_up e referenced
    else if e.stop_returns
    then returns_early (destroy_experience referenced)
    else waits

-- The stream client takes a reference to the connection when its thread is spawned.
unfoldable pub start_thread : StartEnv → Account → Main
start_thread e a =
    let referenced = record a { connection_refs = a.connection_refs + 1 } in
    if e.connects then if e.thread_starts then start_experience e referenced else aborts else aborts

-- A new connection is no floating reference, so `g_object_ref_sink` takes a second one.
unfoldable pub start_connection : StartEnv → Account → Main
start_connection e a =
    if e.connection_ok then start_thread e (record a { connection_refs = 2 }) else aborts

-- The stream client refers to the EGL context, whether or not that can be made current.
unfoldable pub start_stream_client : StartEnv → Account → Main
start_stream_client e a =
    let created = record a { stream_client_refs = 1 } in
    let with_egl = record created { egl_refs = created.egl_refs + 1 } in
    if e.stream_client_ok
    then if e.egl_current then start_connection e with_egl else start_connection e with_egl
    else aborts

unfoldable pub create_session : StartEnv → Account → Main
create_session e a =
    if e.session_ok
    then start_stream_client e (record a { session_there = true })
    else returns_early a

-- Both enumerations; there have to be two views.
unfoldable pub enumerate_views : StartEnv → Account → Main
enumerate_views e a =
    if e.configurations_ok
    then if e.views_ok && (e.view_count == 2) then create_session e a else returns_early a
    else returns_early a

unfoldable pub create_instance : StartEnv → Account → Main
create_instance e a =
    if e.loader_ok
    then if e.instance_ok
      then enumerate_views e (record a { instance_there = true })
      else returns_early a
    else returns_early a

unfoldable pub android_main : StartEnv → Main
android_main e =
    if e.egl_ok
    then create_instance e (record attached { egl_refs = 1 })
    else returns_early attached

-- Whether the start-up comes as far as the objects of the program itself.
abbrev pub gets_session : StartEnv → Bool
gets_session e =
    e.egl_ok
    && (e.loader_ok
        && (e.instance_ok
            && (e.configurations_ok && ((e.views_ok && (e.view_count == 2)) && e.session_ok))))

abbrev pub unit : Bool → ℕ
unit b = if b then 1 else 0

-- Whether it comes as far as the instance.
abbrev pub gets_instance : StartEnv → Bool
gets_instance e = e.egl_ok && (e.loader_ok && e.instance_ok)

-- What is left when `android_main` returns: early with nothing given back but what a failed experience drops, and late with one
-- reference to the connection.
abbrev pub IsLeft : StartEnv → Main → Type 0
IsLeft e (returns_early a) =
    (a.egl_refs ≡ unit e.egl_ok)
    × (a.connection_refs ≡ unit (gets_session e) + unit (gets_session e))
    × (a.stream_client_refs ≡ 0)
    × ((a.instance_there ≡ gets_instance e) × (a.session_there ≡ gets_session e))
    × (a.thread_attached ≡ true)
IsLeft e (returns_late a) =
    (a.egl_refs ≡ 0)
    × (a.connection_refs ≡ 1)
    × (a.stream_client_refs ≡ 0)
    × ((a.instance_there ≡ true) × (a.session_there ≡ true))
    × (a.thread_attached ≡ false)
IsLeft e aborts = Unit
IsLeft e waits = Unit

-- When `android_main` returns before its main loop it still has its reference to the EGL context, if there is one,
-- the instance and the session as far as they were created, the attached thread, and two references to the connection, if it came so far; when it returns after the
-- main loop nothing refers to the EGL context and the stream client, the instance and the session of OpenXR are
-- there, and one reference to the connection is left.
pub main-IsLeft : (e : StartEnv) → IsLeft e (android_main e)
unfolding android_main create_instance enumerate_views create_session start_stream_client
    start_connection start_thread start_experience clean_up destroy_experience
    finalize_stream_client
main-IsLeft e = ground arith
