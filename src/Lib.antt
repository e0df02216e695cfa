-- ===== src/Lib.antt =====
-- GLogiK, the daemon and the desktop service for gaming keyboards: a model of its core with proofs.
--
-- The daemon (src/bin/daemon) reads USB packets from a keyboard, turns them into pressed keys, LEDs and
-- recorded macros, and sends signals over DBus. The desktop service (src/bin/service) of each user
-- receives the signals, keeps the macros in banks and plays them on a virtual keyboard.
--
--   Prelude: tests, lists, maps and bits on the native numbers, shared by all modules.
--   Types, Keys: src/include/base.hpp, src/include/enums.hpp and the tables of src/lib/shared/glogik.cpp.
--   UsbDevice: the state of one keyboard, src/bin/daemon/USBDevice.hpp, and what the driver sends.
--   Macro: src/lib/shared/GKeysMacro.cpp, `checkMacro` and its parts. An index past the end is `none`.
--   LogitechG510: src/bin/daemon/logitechG510.cpp, the tables and `processKeyEvent`, `checkGKey` and
--     their like on a buffer of bytes.
--   Libusb: src/bin/daemon/libusb.cpp, how a device is opened and closed, on a log of the calls of libusb
--     and any answers of it. Held says what a log holds, Matches which descriptors are looked for.
--   KeyboardDriver: src/bin/daemon/keyboardDriver.cpp. Modifiers is `handleModifierKeys`, Events is
--     `fillStandardKeysEvents`, Leds is `updateDeviceMxKeysLedsMask`, and Listen is the listening thread
--     as steps on its state: a step is a USB transfer or what another thread asks.
--   Banks: src/lib/shared/GKeysBanksCapability.cpp and src/include/MBank.hpp.
--   KeyEvents: src/bin/service/GKeysEventManager.cpp.
--   Service: the signals in src/bin/service/DBusHandler.cpp; Followed and Handled put the devices of
--     DevicesHandler behind them.
--   DevicesManager: src/bin/daemon/devicesManager.cpp, the containers of started, stopped and unplugged
--     devices. ClientsManager: src/bin/daemon/clientsManager.cpp and client.cpp, the connected services
--     and who may change a device; it has the devices manager as a part of its state.
--   LcdScreenPluginsManager: src/bin/daemon/LCDScreenPluginsManager.cpp, which LCD plugin is on the
--     screen. PbmData: `dumpPBMDataIntoLCDBuffer` of the same file, on vectors of bytes.
--   Filesystem: `getNextAvailableFileName` of src/lib/utils/filesystem.cpp. DeviceProperties: what the
--     service knows of a device, src/lib/shared/deviceProperties.cpp and deviceConfigurationFile.cpp.
--   FsNotify: src/lib/utils/FSNotify.cpp, the watches on directories and the reading of their events.
--   DevicesHandler: src/bin/service/devicesHandler.cpp, the devices of the service and their files;
--     Containers has the moves between its containers, and Refines relates them to a map of statuses;
--     FilesMap is `getDevicesFilesMap` with the events that FsNotify reads.
--   DbusHandler: src/bin/service/DBusHandler.cpp, the registration, the session and the devices of the
--     service, together with the daemon's ClientsManager that serves its calls.
--   Scenarios: concrete keyboards, macros and services, and the theorems applied to them.
--
-- A uint8_t mask stays below 256 where a statement needs it, by a hypothesis on the packet's bytes. The
-- loops are structural recursion on a table, a buffer or a macro, so no fuel is chosen; but the search for
-- the next LCD plugin has a round for each plugin as its fuel, since it ends where it began. A time stamp is
-- the number of milliseconds since the last event, an input of each transfer. Two threads interleave
-- between USB transfers, not inside the handling of one. Device and client names are numbers, since
-- the code only compares them; a command is the list of its character codes.
--
-- A remote method call is answered, or served without an answer, or not sent; which of these is an
-- argument of the event, and so is what the file system holds. The search for a file name has ten rounds
-- in the source. The signals that only refresh the GUI are left out.
--
-- Not modelled: the transfers of libusb, hidapi, libdbus, libevdev, X11, boost and the file system, whose
-- results are inputs; logging; the Qt interface; the launcher; what the LCD plugins draw.
pub mod Prelude
pub mod Types
pub mod Keys
pub mod UsbDevice
pub mod Macro
pub mod LogitechG510
pub mod KeyboardDriver
pub mod Banks
pub mod KeyEvents
pub mod Service
pub mod ClientsManager
pub mod DbusHandler
pub mod DeviceProperties
pub mod DevicesHandler
pub mod DevicesManager
pub mod Filesystem
pub mod FsNotify
pub mod LcdScreenPluginsManager
pub mod Libusb
pub mod PbmData
pub mod Scenarios
