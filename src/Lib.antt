-- ===== src/Lib.antt =====
-- Electric Maple streams the frames of an OpenXR runtime on a PC to a standalone headset. The server
-- encodes the frames in a GStreamer pipeline; the client decodes and shows them. A websocket carries the
-- signaling messages, RTP the video, and ENet (or a WebRTC data channel, in the build with USE_WEBRTC) the
-- client's messages to the server. This library models the C code of both sides.
--
--   Connection   client/src/em/em_connection.c and em_status.h: `Connection` is `struct _EmConnection`, and
--                each function of the file is a definition of the same name. Setup brings a connection up
--                (`em_connection_new`, `em_connection_connect`, the websocket and data channel callbacks),
--                Send has the sends and the ENet thread, Clock the clock offset, Messages the signaling
--                messages, Life the disposal and what the class registers, Names the statuses' names. Session is the step relation of
--                a connection's life; Linked, References, Ledger, Enet and Teardown are about it.
--   Signaling    server/src/ems/gst/ems_signaling_server.c: the websocket clients, the messages to and from
--                them, the server's ENet thread; Life has the libsoup server. Handshake joins it with
--                Connection.Messages, and Clients is about the list of clients.
--   TestClient   server/src/test_client/webrtc_client.c: the test client's messages; Session has its main
--                function, its bus and its data channel.
--   Stream       client/src/em/em_stream_client.c: `StreamClient` is `struct _EmStreamClient`. Pull has
--                `em_stream_client_try_pull_sample` and its parts, Metadata the RTP probes, Lifecycle the
--                pipeline, Bus the messages on its bus, Probes what only watches the packets. Life adds the
--                objects that the client refers to, its thread, stop and finalization. Samples, Arrivals,
--                Taking and Mailbox are about the decoded samples, Life.Accounts about Life.
--   Pipeline     server/src/ems/gst/ems_gstreamer_pipeline.c: the RTP probes, in Clients the websocket
--                clients, in Uplink the messages from them, in Encoder the choice of the encoder, in
--                ClockSync the clock messages, in Webrtc the callbacks of webrtcbin, in Life creation, bus,
--                timers, playing and stopping. Life.Stopping is about the stop. Travel joins the probes with
--                those of Stream.Metadata.
--   Source       server/src/ems/gst/ems_gstreamer_src.c: the frames that the compositor pushes; Creation
--                has the caps, References the frames that the buffers keep.
--   Config       server/src/ems/ems_config.c: the device config and its JSON file.
--   Args         server/src/ems/gst/ems_pipeline_args.c: the command line's options.
--   Egl          client/src/em/render/em_egl_context.c: the EGL objects; Binding has what others use of them.
--   Experience   client/src/em/em_remote_experience.cpp: the messages to the server, with `InputState` of
--                em_remote_experience.h. Frame has one frame, Life creation and destruction, Encoding the
--                encoder of the hand joints. Accounts, Sound,
--                Balance, Run, Layers and Clean are about them, Run with the samples that arrive in the
--                stream client.
--   Render       client/src/em/render/render.cpp and gl_swapchain.cpp: the OpenGL objects, of which Objects
--                and Framebuffers keep account. Debug is gl_error.cpp and gl_debug.cpp.
--   App          client/src/main.cpp: commands, events, session and main loop; Polling is about them.
--                Bindings has the actions and what they are bound to, Startup the start-up and clean-up.
--   Devices      server/src/ems/ems_callbacks.cpp, over Monado's collection of callbacks as an interface. Hmd
--                and Controller are ems_hmd.cpp and ems_motion_controller.cpp, Instance ems_instance.cpp and
--                the part of the pipeline that hands messages to the devices, Shutdown how all of
--                them are destroyed, and ems_server_main.cpp. Racing is about the display's
--                lock, with one thread that queries and one that receives. Joints, Storable,
--                Received and Delivery join them with Experience.
--   Compositor   server/src/ems/ems_compositor.cpp: the commit of the layers, which pushes into Source. Commit
--                is about the frames and the lock, Message about a command buffer that cannot be begun, System has
--                the system info and the pacing marks, Creation the creation and the destruction, of which
--                Creation.Parts keeps account.
--   Proto        proto/generated/electricmaple.pb.h: the messages of the client.
--   Json         JSON-GLib as an interface of operations and laws; Json.Sample is an instance.
--   Common       numbers, lists, Boolean tests and integers that the modules share.
--   Tests        the theorems at concrete values.
--
-- An object of GLib, GStreamer or libsoup is a number. What a library call returns is an argument of the
-- definition that makes the call, and what the code asks of a library is a value that the definition
-- returns: a list of calls, actions or events. A failed assertion, `abort`, `exit` and a null
-- dereference are outcomes of their own. uint64_t and int64_t wrap at 2^64; floats are their bits or a parameter.
-- Threads interleave at whole functions, which hold a mutex or run on one main loop, and in Devices.Racing at
-- the parts of a query. The loops
-- of the code run over lists; one round of an ENet thread is one step, and the events that `enet_host_service`
-- reports in it are a list. Only the endless loop over Android's events has fuel; any fuel above the
-- number of a poll whose result is negative is enough.
--
-- Not modelled: logging and debug variables; the texts of the GStreamer pipelines and the structures that
-- OpenXR and Vulkan get; the disabled WebRTC branch of the server's client callback; the display with
-- USE_PREDICTION, which is commented out; ENet (vendored), nanopb's code (generated) and GStreamer's Android
-- start-up code (generated).
pub mod Common
pub mod Connection
pub mod Json
pub mod Signaling
pub mod Stream
pub mod Pipeline
pub mod Source
pub mod Config
pub mod Args
pub mod Egl
pub mod TestClient
pub mod Proto
pub mod Experience
pub mod Devices
pub mod Compositor
pub mod App
pub mod Render
pub mod Tests
