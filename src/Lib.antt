-- ===== src/Lib.antt =====
-- Verification of the uniubi ROS 2 packages.
--
-- The program. uniubi_motion_client is a library: a client of the robot's RPC service that
-- connects, takes and renews control under a lease, sends commands and follows events.
-- uniubi_motion_bridge is the node that offers the client to ROS: services that run commands,
-- velocities with a watchdog, a status, and joint states.
-- uniubi_media_driver has two nodes: one publishes the JPEG frames of the robot's cameras and
-- bridges audio, the other publishes RTSP cameras.
--
-- The files.
-- - Prelude.antt and its children: Boolean tests, lists, subsequences, texts and integers over the
--   native numbers.
-- - Json.antt: the calls of jsoncpp as an interface, a parameter of everything that reads JSON.
-- - Rpc.antt: uniubi_motion_client/src/system_rpc_client_base.cpp, the requests and their payload.
-- - Client.antt and its children: uniubi_motion_client/src/motion_high_level_client.cpp.
--   `Client` is the record of the members of `MotionHighLevelClient`; a function of the model
--   has the name of the method, in lower case. Client/Renew has the lease (`tick_renew`,
--   `handle_renew_response`, `lose_control`), Client/Events `handle_event`, Client/Calls
--   `rpc_call` and the wait for a response, Client/Session `connect`, `disconnect`,
--   `startControl` and `releaseControl`, Client/Observation `setMotionObservedEnable` and the
--   subscriptions, Client/Queries and Client/Commands the other calls, Client/Construct the
--   constructor, Client/Samples and Client/Reader
--   uniubi_motion_client/src/cere_sensor_reader.cpp, and Client/Machine runs any sequence of
--   calls and callbacks. The other children prove: Stable is the induction over what the
--   executor runs during a call, which Invariant, StateChange, Clock and Trace instantiate.
-- - Media.antt and its children: Media/Playback is
--   uniubi_media_driver/src/audio_playback_queue.hpp and the callbacks of
--   uniubi_media_driver/src/audio_bridge.hpp, Media/Audio the rest of that file; Media/Config is
--   uniubi_media_driver/src/rtsp_config.hpp; Media/Streams is the cameras of
--   uniubi_media_driver/src/uniubi_media_driver_node.cpp, Media/Setup its start and its
--   destructor; Media/Rtsp and its children Frames, Decoder, Publisher and Workers are
--   uniubi_media_driver/src/uniubi_rtsp_driver_node.cpp, whose threads run as steps from one
--   call of FFmpeg to the next. The other children of each prove.
-- - Bridge.antt and its children: uniubi_motion_bridge/src/uniubi_motion_bridge_node.cpp.
--   `Bridge` is the record of the members of `MotionBridgeNode`, the client among them.
--   Bridge.antt has the status and how the node calls the client, Bridge/Velocity `cmd_vel` and
--   its watchdog, Bridge/Commands and its children Connection and Actions the commands,
--   Bridge/Layout the motor layout and the joint states, Bridge/Battery
--   uniubi_motion_bridge/include/uniubi_motion_bridge/battery_status.hpp, Bridge/Queries and
--   Bridge/BatteryQueries `update_motion_status` and `update_battery_status`, Bridge/Services
--   the services with JSON parameters, Bridge/Worker the queue and `worker_loop`,
--   Bridge/Observed what is published of each observation, Bridge/Frames
--   uniubi_motion_bridge/include/uniubi_motion_bridge/frame_id.hpp. The other modules prove.
-- - Sample.antt and its children: a small service, cameras and a stream on which the theorems are
--   applied.
--
-- The world. A client holds the time, the number of occasions on which the world answered, and a
-- trace of what it did. `Env` answers by the number of the occasion: how long it took, what the
-- service replied, which callbacks the executor ran while a call waited. A callback thus runs in the
-- middle of `rpc_call`, as it does in `spin_until_future_complete`. Times are nanoseconds. A test of
-- a member that is a timer, a subscription or a callback reads a Boolean. The media packages
-- have the robot SDK as parameters: the raw stream (`Raw`), the media client (`Bus`), and what starts
-- them (`Sdk`, `MediaSdk`). Floating-point numbers are a type `N` with the operations that the code
-- asks for (`Numbers`, `Floats`), double precision where both occur a type `D` (`Doubles`).
--
-- A call of the client by the node runs in it as the client's functions do; the calls of the
-- connection callback that the client made meanwhile are read from its trace, in their order, and run
-- before the node goes on (`after_call`).
--
-- Exceptions are values of `Exit`. The loop of `startControl` runs on fuel, one more than the
-- nanoseconds of the timeout; it is enough where the clock moves on between two readings, since
-- each round reads the clock. The wait of `connect_client` for the service is the same, and so are
-- the waits of the media node for its connection and its raw stream, in microseconds. The other loops
-- of the bridge and of the playback are structural recursions; the loops of the RTSP threads are
-- sequences of steps.
--
-- Texts are native strings in the client and lists of bytes in the media packages, whose checks read
-- the bytes by the rules of the C locale.
--
-- `configure_fallback_motor_layout` reads past the end of the joint names where the sum of the sizes
-- has wrapped. C++ does not define what follows; the model has the outcome `past_end` for it and ends
-- the command there with an exception.
--
-- Not modelled: jsoncpp, rclcpp, DDS, FFmpeg and the robot SDK (parameters), the text on std::cerr and
-- in the log, the bodies of the callbacks of the user, the name that `make_client_id` builds (a
-- parameter), the command line and the example program; and of the bridge the parameters of its
-- constructor.
pub mod Prelude
pub mod Json
pub mod Rpc
pub mod Client
pub mod Media
pub mod Bridge
pub mod Sample
