-- ===== src/Lib.antt =====
-- edge_frame: a C++ service that watches cameras on an edge device. Loaders push frames into a queue,
-- the detector finds faces and bodies, processors such as the monitor track people and build events,
-- the dispatcher runs the events, and the flow upload sends them to a server, with files for what
-- the server does not take. The processors find each other's queues in a registry by name, and count
-- what they do in a table of metrics.
--
-- Files and code:
--   Prelude            words of 32 and 64 bits, lists, maps, and loops that may abort
--   Platform           what the program takes from elsewhere: float and double, OpenCV's rectangles
--                      and images, the ReID network, the clock, the assignment solver
--   Track              modules/track: tracker.h (Person), tracker.cpp (Geometry, Match, Refresh,
--                      Sweep, Retire, Update, Greedy) and TrackObjectInterface.cpp (Detect)
--     Track/Sweep      the loops that erase from one vector and push to another, by index, and the
--                      two lists that they amount to
--     Track/Run        a call of Update that did not abort, taken apart into its stages
--     Track/Keeps      one rule for predicates that every step on an object keeps
--     Track/Matching   the contract of the solver and the pairs that are found under it
--     Track/Total      no access out of range, and no part of the image outside it, over a frame
--     Track/Bounds, Ids, Outcome, Clock   what a frame keeps and does
--   Monitor            src/processor/MonitorProcessor.cpp
--   Flow               src/processor/FlowRpcAsynProcessor.cpp
--   Objects            include/mgr/ObjectManager.h
--   Channel            include/mgr/QueueManager.h
--   Split              SysPublicTool::split of src/SysPublicTool.cpp
--   Detection          modules/api/src/Detect.cpp (Params, Anchors, Decode, Nms, on the loops of
--                      Groups) and modules/api/src/FaceDetectWithMask.cpp (Grid, Face)
--   Loader             src/processor/UsbDeviceLoaderProcessor.cpp: the search for a camera and its
--                      resolution (Camera), the loop that opens it again and the frames (Usb), and
--                      the rotation of images (Rotate); src/processor/RtspLoaderProcessor.cpp (Rtsp)
--                      and LocalVideoLoaderProcessor.cpp (Video)
--   Detector           src/processor/DetectorProcessor.cpp
--   Events             include/event/Event.h, and in Handlers src/event/Event.cpp with
--                      src/processor/DispatchProcessor.cpp
--   Pipeline           src/SolutionPipeline.cpp, include/processor/DynamicFactory.h, src/util.cpp and
--                      the start in src/app/ServiceDaemon.cpp
--   Metrics            modules/interfaces/ServiceMetricManager.h, src/mgr/ServiceMetricManager.cpp
--   Demo, Tests        a concrete platform, and runs at concrete values
--
-- State and operations: a class is a record of its members, and a method is a function from the
-- record to the record, with the source's name. A call that may abort, by an assertion or an access
-- out of range, is an Option, `none` for the abort. Vectors passed by reference are results. The
-- metric table and the number of clock readings are passed along as Env. Members that a constructor
-- leaves unset hold what the record Raw says, so that what reads them shows in the model. A part of an image
-- is taken by crop, which is none where OpenCV's assertion on the rectangle fails.
--
-- Numbers: unsigned long long and int are bit patterns on the native numbers, with the wrap-around
-- written out (sub_u64, add_u64, add_int, to_int, int_lt). float and double are abstract. An int
-- that the code compares with an unsigned value is held as that value; monitor_interval is taken
-- not to be negative.
--
-- Bounds and fuel: the loops are structural on the vectors that they run through or on the rounds
-- that are left; the sweeps that erase while they run count the remaining members, which is exact.
-- The outer loop of split runs on fuel, the length of the string, since each of its rounds moves on
-- by a byte at least. The endless loops of the loaders, the detector and the
-- dispatcher run over a list of what happens next.
--
-- Hypotheses: the solver assigns at most one column to each row, within the table, and no column
-- twice (Track.Matching.SolverLaw); the ReID network answers vectors of one length
-- for a part of the image that has pixels (Track.Matching.Cells.ReidLaw); the body boxes lie in the
-- image and have pixels (IsReady there, and Track.Detect.Visible); rounding from double to float keeps
-- the order (Track.Greedy.Found.Rounding); boost's queue is first in, first out up to its capacity
-- (Channel.Spsc); std::sort orders boxes by score and keeps them all (Detection.Nms.Sorting); a
-- float holds the index of an anchor exactly (Detection.Face.Boxes.Total.FaceFits); OpenCV transposes and
-- flips as documented (Loader.Rotate.OpenCvLaw). Tests/Solver, Tests/Matches, Tests/Greedy,
-- Tests/Channels, Tests/Detections, Tests/Faces and Tests/Pipeline give an instance of each.
--
-- Concurrency: each operation of the metric table holds its mutex throughout and is one step, and
-- any list of steps is an interleaving. The locked operations of the registry carry the mutex in the
-- state. The flow upload is taken between two calls of SendToFlowServer; the protocol of its two
-- mutexes is not modelled.
--
-- Not modelled: Hungarian.cpp, which adapts another project's code; the neural networks themselves,
-- their wrappers and the filling of their input images; drawing, recording, HTTP and file access;
-- the threads that the dispatcher and the pipeline start; the configuration.
mod Prelude
pub mod Metrics
pub mod Platform
pub mod Track
pub mod Monitor
pub mod Flow
pub mod Objects
pub mod Channel
pub mod Split
pub mod Detection
pub mod Loader
pub mod Events
pub mod Detector
pub mod Pipeline
pub mod Demo
mod Tests
