-- ===== src/Lib.antt =====
-- Verification of the lidar driver of CQUT-LGV, a laser guided vehicle.
--
-- The vehicle's lidar, an Oradar MS200, sends frames of 47 bytes over a serial line. The driver
-- `OrdlidarDriver` (oradar_ros/sdk/src/ord_lidar_driver.h and .cpp) buffers the bytes, finds the frames
-- by their header and checksum, and cuts the stream of points into full circles.
-- `FullScanFilter` (oradar_ros/sdk/src/filters) cleans a circle. A C interface wraps the driver, and the ROS
-- node publishes every circle. A second node (lgv_controller) passes velocities to the vehicle's controller
-- and publishes the odometry that comes back.
--
-- Crc        `CrcTable` and the checksum loop of `uart_data_handle`; Crc/Polynomial and Crc/Detect are
--            about the code that the table implements.
-- Protocol   oradar_ros/sdk/src/ordlidar_protocol.h and the cast of the buffer to a frame;
--            Protocol/Layout writes the wire format field by field.
-- Reader     `uart_data_handle` and `point_data_parse_frame_ms200`, with the members they change as the
--            record Reader; Reader/Loop has one function per step of the loop. Reader/Invariant and
--            Reader/Total hold the invariant and the termination, Reader/Assembly describes the stream
--            of points, Reader/Packages and Reader/Conserve compare the driver with it, Reader/Checksum
--            and Reader/Resync are about damaged and found frames, and Reader/Recover with its child
--            Reader/Recover/Calls about the frames behind a damaged one. Reader/Stream is about a call on
--            many frames, Reader/Stream/Buffered about the buffer's part in it, Reader/Stream/Split
--            about where a read cuts the stream, and Reader/Stream/Circles about the circles of a whole
--            stream.
--            Reader/Parser is a description of what should be found in any stream of bytes: a parser that
--            sees the whole stream. Its children are about the parser itself (Reader/Parser/Laws,
--            Reader/Parser/Noise) and about the buffer's part in doing the same
--            (Reader/Parser/Search, Reader/Parser/Rounds, Reader/Parser/Calls); Driver/Parsed has the
--            receive thread, with its child Driver/Parsed/Circles.
-- Filter     `FullScanFilter`, a child module for each filter; Filter/Base has the loop that writes
--            distances.
-- Driver     `OrdlidarDriver` around the receiving half, with the world behind its channel:
--            Driver/Device (oradar_ros/sdk/core/common/ChannelDevice.h), Driver/Info
--            (`uart_data_find_init_info`), Driver/Receive (`mRxThreadProc`), Driver/Commands
--            (`Activate`, `Deactive`, `SetRotationSpeed`), Driver/Session (`Connect`, `Disconnect`),
--            Driver/Grab (`GrabFullScan` and its like) and Driver/Race (`GrabFullScan` beside the
--            receive thread). Driver/Messages, Driver/Serial and Driver/Versions are about the device
--            information, Driver/Requests about the bytes of the commands, Driver/Activation,
--            Driver/Reached and Driver/Answers about their answers, Driver/Answers/Connected about
--            `Connect` and `Disconnect`, Driver/Answers/Fetched about the calls that fetch a scan,
--            Driver/Race/Lost about a circle that no call fetches, and Driver/Stream about the
--            receive thread on the bytes of many frames, however they are cut into reads.
-- CApi       oradar_ros/sdk/src/ord_lidar_c_api_driver.cpp. CApi/Calls makes its calls one after the
--            other, as a program does; CApi/Calls/Fetched and CApi/Calls/Programs are about such
--            programs.
-- ScanNode   oradar_ros/src/oradar_scan_node.cpp: `publish_msg`; ScanNode/Ranges is about the
--            cells of a message, ScanNode/Limited about what they hold, ScanNode/Node is `main`,
--            ScanNode/Params the parameters that it reads, and
--            ScanNode/Published is about what it publishes.
-- Controller lgv_controller/src/lgv_controller_node.cpp: `serial_callback` and `main`, with the serial port
--            and ROS as a record of operations. Controller/Memory has the accesses to `r_buffer`, and
--            what stops the program; Controller/Packets, Controller/Reading and Controller/Rounds are about
--            the packets of the line.
-- Samples    oradar_ros/sdk/samples: blocking_test.cpp, non-blocking_test.cpp and blocking_c_api_test.c;
--            Samples/Ends is about the two in C++, Samples/Same compares the one in C with them.
-- Base       oradar_ros/sdk/core/base: Base/Timer (timer.h, timer.cpp and the deadlines of locker.h),
--            Base/Locker, Base/Event and Base/Scoped (locker.h on Linux), Base/Platforms (locker.h
--            and timer.cpp on the other systems) and Base/Thread (thread.h).
-- Floats     `float` and `double` are a record of operations, an instance argument of what uses them.
--            No law of them is assumed. Floats/Fixed is a concrete choice for the tests.
-- Common     shared names, lists over the native numbers, bits and signed integers.
-- Tests      runs of the code and the theorems at concrete inputs.
--
-- Numbers are natural numbers with the wrap-around of the source written out. `size() - 2` in the
-- outer loop is the wrapping subtraction of `size_t`. An index or an `int` operation that is undefined
-- in C++ gives `none` in the filters. The outer loop of `uart_data_handle` runs on fuel, one more than
-- the buffered bytes: every round that goes on removes at least two of them. The constructor leaves
-- `full_scan_ready_` and `one_scan_ready_` unset; they are false here. `memcpy` between overlapping
-- parts of an array, which C leaves undefined, copies as `memmove` does.
--
-- The receive thread works while the driver's caller waits: what it gets is a list of rounds for
-- every wait, which the channel supplies. Driver/Race interleaves its rounds with the statements of
-- `GrabFullScan`; what happens inside a copy of a scan, which the source does not lock either, is
-- not modelled. A command waits at most ten rounds of a second, as the source does; the node's loops
-- run as often as the middleware answers that it is up.
--
-- A round of the controller's main loop may be stopped by an access outside an array or by an exception of
-- the serial library, which are told apart; the main loop runs for a given number of rounds.
--
-- Not modelled: the copies of the serial, socket and angles libraries under oradar_ros/sdk/core, the
-- handlers of signals in the samples, the headers that only name types, and the launch files and
-- descriptions of the robot.
pub mod Base
pub mod CApi
pub mod Common
pub mod Controller
pub mod Crc
pub mod Driver
pub mod Filter
pub mod Floats
pub mod Protocol
pub mod Reader
pub mod Samples
pub mod ScanNode
pub mod Tests
