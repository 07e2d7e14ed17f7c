-- ===== src/Loader.antt =====
-- The processors that read frames from a camera or a file and push them to the detector:
-- src/processor/UsbDeviceLoaderProcessor.cpp, RtspLoaderProcessor.cpp and
-- LocalVideoLoaderProcessor.cpp.
pub mod Camera
pub mod Usb
pub mod Rotate
pub mod Rtsp
pub mod Video
