-- ===== src/Lib.antt =====
-- The over-the-air update of the robot's boards: the C++ part of the recovery system that loads a
-- firmware image and sends it to a board over the CAN bus.
--
-- The parts, from the bus upwards. All paths are under bootable/recovery/.
--   * Flexcan models robot_update/flexcan.h and robot_update/flexcan.cpp: `FlexcanPacket` is `struct
--     flexcan_packet`, Flexcan/Packet has the macros that pack its fields into an identifier, and
--     Flexcan/Frame has flexcan_send and flexcan_recv with the two raw calls below them, and Flexcan/Open
--     opens and closes the socket.
--   * RmCan models robot_update/rmCAN.h and robot_update/rmCAN.cpp: RmCan/Send has sendToCan, which
--     cuts a long message into parts; RmCan/Receive has recvFromCan with the maps of incomplete
--     messages and the receive list; RmCan/Device has sendCANData and readCANData; RmCan/Thread has
--     openCANDevice, closeCANDevice and the receiving thread.
--   * Crc16 models robot_update/crc16.cpp.
--   * Image models robot_update/Image.h and robot_update/Image.cpp: Image/Scan has fscanf as it is used,
--     Image/Load has LoadHex, Image/Elements the vector of elements with CompactElements, and Image/Path
--     has CheckFileExt. Image/RoundTrip cuts an image into records and prints them, which the source does
--     not, to read them back.
--   * RobotUpdate models robotUpdate.cpp and robotUpdate.h: RobotUpdate/Request has the exchanges with a
--     board, RobotUpdate/Firmware has sendFirmware, and RobotUpdate/Session has upgrade, the calls that
--     change the boards' mode and robotSubSysUpdate.
--   * Rkimage models the part of rkimage.cpp that checks an update image and copies its items:
--     Rkimage/Read has read_file and read_partition, Rkimage/Check has check_image_crc, Rkimage/Compare
--     has my_memcmp, Rkimage/Items has FindItem and CheckImageFile, Rkimage/Target the opening of what is
--     written to, Rkimage/Copy has write_image and its two variants, Rkimage/Verify image_compare,
--     Rkimage/Loader has write_loader with make_loader_data, and Rkimage/Install install_rkimage and
--     recover_backup.
--   * Recovery models recovery.cpp, the main program: Recovery/Start has main from its first line,
--     Recovery/Args has get_args, Recovery/Options getopt_long with unique prefixes and the variables the
--     long options set, Recovery/Paths the place of an update, Recovery/Main what main does from there,
--     Recovery/Prompt has prompt_and_wait and wipe_data, Recovery/Menu get_menu_selection and the browsing
--     of update_directory, Recovery/Finish finish_recovery with the copies of the logs and the locale,
--     Recovery/Rotate rotate_last_logs, Recovery/Erase erase_volume, Recovery/Clone simg2img and the
--     cloning of data, Recovery/Sdtool the boot from the card, and Recovery/Config its configuration.
-- Base holds what they share: lists and their lengths over native numbers, bits, byte buffers, integers.
--
-- How they interact. RmCan sends and receives packets through the record `Link`, which `flexcan_link`
-- fills with flexcan_send. RobotUpdate calls sendCANData and readCANData through the record `CanDevice`,
-- and the loader, the mount and the opening and closing of the device through `Services`;
-- `LoadsHex` says that the loader is the `load_hex` of Image. Recovery calls robot_sub_sys_update, and
-- keeps the bootloader message and the files of /cache through the record `Storage`, whose laws are
-- `StorageLaws`; Recovery/Disk is one that lies in memory. It calls install_rkimage through `Installers`,
-- and Rkimage/Install is what that call does on a `Target`, with write_image, image_compare and
-- write_loader one after the other; `IsPartition` is what a theorem on it asks of the partition, and `HasPlaces` of the
-- devices and files that descriptors are opened on.
--
-- State. What is outside the program is a world, a type parameter `W` that every call takes and gives
-- back. The globals of the program are values that are passed: g_PacketsId in `send_to_can`,
-- InCompletePackets and RecvList in `Receiver`, g_DataTotal and g_DataSended in `Progress`, g_curModule
-- as an argument, and the members and locals of LoadHex in `Variables`. An unsigned type of w bits has
-- its wrap-around written out. In Image `long` is taken to be wide enough for a 32-bit address; the
-- checksum behind an image is an `unsigned long` of four bytes, as on the board's 32-bit processor.
--
-- Loops. Loops over a counter recurse on what is left of it. `send_retry` repeats a send while the
-- device has no buffers, which has no bound in the source: it recurses on fuel, and theorems that speak
-- of a result hold for every fuel. `read_loop` recurses on the passes that its reader makes, a list of
-- what arrives and of the clock. `load_lines` recurses on fuel, which `load_hex` takes as one more than
-- the characters of the file; every pass reads one at least, and that this is enough is proved. The loops
-- of read_partition and check_image_crc recurse on fuel, one more than the bytes that remain, and so do
-- those of get_args, copy_log_file and readConfig over the bytes of a file, each with a proof that this
-- is enough. The menu of prompt_and_wait goes on until it is left: its fuel is the number of its turns.
-- The copies of rkimage.cpp recurse on fuel, one more than the bytes that are left to copy, which is enough
-- as every turn copies one at least.
--
-- Parameters. <linux/can.h>, robot_common_data.h and robot_update_message.h are not in the repository:
-- their constants are fields of `CanHeader`, `RobotIds` and `Protocol`. CRC_32_NEW, the CAN socket,
-- `select`, the clock and `malloc` are parameters too. rkimage.h gives `ImageFormat`, `Target` is what an
-- image is written to, and the parser of edify and set_bootloader_message are in `InstallCalls`.
-- bootloader.h, install.h, roots.h and the screen are not there either: `BootHeader`, `InstallCodes`,
-- `Roots`, `Installers`, `Menu` and `System` stand for them.
--
-- The thread and the readers meet in the receive list only, which a mutex guards: for a reader the
-- thread is the `arrivals` of its passes, and for the thread the device is a sequence of turns. The thread
-- sets g_flag itself when it starts: `ThreadStart` says whether closeCANDevice has cleared it by then.
--
-- Not modelled. Messages to the log and the screen, with the tables of names and times that only they
-- use; in rkimage.cpp, the functions that a script calls; in recovery.cpp, the lights
-- and their thread, the wait for the card to be removed, the copy of a sideloaded package and the
-- resizing of file systems; the Java application. A string that does not fit its buffer is written out
-- where the code truncates it, and is left out where it overflows. What fread and fclose do with NULL in
-- erase_volume is the parameter `use_null` of `Roots`. In LoadHex, a hex field with a sign or
-- with the prefix 0x, which `%x` takes too, ends the model with `unmodelled`.
pub mod Base
pub mod Crc16
pub mod Flexcan
pub mod RmCan
pub mod Image
pub mod RobotUpdate
pub mod Rkimage
pub mod Recovery
