-- ===== src/Lib.antt =====
-- The core of OPDI in C and C++: the message format, the port registry, the slave's side of the protocol,
-- and the master's side of it, as functions on explicit states, with theorems about them.
--
-- A master and a slave exchange lines `channel:payload:checksum`. Channel 0 carries control messages;
-- the payload of the others is split at colons into parts, of which the first is a tag. A slave
-- answers the handshake of a master, negotiates encryption, authenticates the master if it has to,
-- and then handles requests for the ports that its configuration has registered, until an error or
-- a disconnection ends the loop. A master puts the bytes that it receives together to messages, gives
-- control messages to its device, and finds the answer to a request by its channel.
--
-- The parts, and the files that model them. A definition has the name of the C function, without
-- the prefix `opdi_`; a helper models the lines of a loop or of a branch.
--   Platform     code/c/platforms/linux/opdi_platformfuncs.c: numbers and text. `strtol` and
--                `snprintf` are written out as the C library documents them, over a 64 bit long.
--   Platform.Avr code/c/platforms/avr/opdi_platformfuncs.c: the printing of numbers. The exchange of
--                characters in place is a loop on the list of the buffer.
--   Strings      code/c/common/opdi_strings.c: `strings_split` works in place on the bytes of its
--                argument, so a part is an offset into the memory that it leaves; `strings_join`,
--                as the text that it makes and as the bytes that it writes.
--   Message      code/c/common/opdi_message.c, `encode` and `decode`. `decode` reads the whole buffer,
--                with what older messages left in it, and is given the byte in front of it.
--   Port         code/c/common/opdi_port.c: ports are objects in a heap, linked by address; a state
--                of the static variables goes through `add_port`, `bind_port`, `unbind_port` and
--                `reset_bindings`.
--   Slave.State  code/c/common/opdi_config.h: what a configuration and the platform provide is the
--                record `Device` of functions on a world of any type; the static variables of the
--                slave are the record `Slave`. A C function with a status is an `Action`, and `>>`
--                is the return on a status other than OPDI_STATUS_OK.
--   Slave.Transfer   code/c/common/opdi_message.c: `get_message` and `put_message`, with encryption
--                and without.
--   Slave.Encrypted  what a device that sends or receives and its block cipher promise.
--   Slave.Protocol   code/c/common/opdi_protocol.c.
--   Slave.PortInfo, Slave.PortState, Slave.Extended, Slave.Handler, Slave.Handshake, Slave.Session
--                code/c/common/opdi_slave_protocol.c, from the infos of the ports to
--                `opdi_slave_start` and the message loop.
--   Master.StringTools, Master.OpdiMessage
--                code/c/common/master/opdi_StringTools.cpp and opdi_OPDIMessage.cpp. A function that may
--                throw gives an `Outcome`; the texts of exceptions are left out. The number parsers of
--                the POCO library are parameters.
--   Master.Receiver  the receiving side of `MessageProcessor::run` in opdi_MessageQueueDevice.cpp: what
--                each call of `read` gives is a chunk of bytes.
--   Master.Protocol  opdi_AbstractProtocol.cpp, with the channels and the control messages of
--                opdi_BasicProtocol.cpp. The input queue is a list; the clock and the device appear
--                as the rounds of a wait, with the messages that arrive before each of them.
--   Master.Ports, Master.Conversation, Master.Capabilities
--                opdi_OPDIPort.cpp, opdi_DigitalPort.cpp, opdi_SelectPort.cpp, the requests of
--                opdi_BasicProtocol.cpp, opdi_BasicDeviceCapabilities.cpp and opdi_PortFactory.cpp. A
--                function that works on a port gives the port and the connection back also when it
--                throws, since what was changed before stays changed.
--   Master.Handshake  `handshake` of opdi_IODevice.cpp, over the list of messages that the calls of
--                `receiveHandshakeMessage` give, behind which they time out.
--   Configs.DoorControl  code/c/configs/Arduino/DoorControl/DoorControl/DoorControl.ino, built without
--                USE_RFID: the ports that keep a number in the EEPROM, the keypad and `doWork`. What a
--                call reads from outside is a record, what it does to the pins a list of effects; the
--                EEPROM and time libraries are parameters.
--   Configs.Arduino  code/c/configs/ArduinoPDI: the pins of ArduinOPDI.cpp, and of OPDI.cpp the functions
--                that set them, the idle timeout and the waiting.
--   Constants    code/c/common/opdi_constants.h, opdi_protocol.h, opdi_protocol_constants.h, and the
--                sizes of code/c/configs/LinOPDI/opdi_configspecs.h.
--   Base         lists, bytes, integers, results and Boolean tests that all of them share.
-- The other children of a part hold its lemmas, and `Tests` has runs at concrete inputs.
--
-- The build is the one of LinOPDI: encryption, authentication, all kinds of ports, the extended
-- protocol, custom ports, and `opdi_message_handled`. Numbers are natural numbers; where the code has
-- a type of w bits and may leave its range, the wrap-around is written out. Loops over a list are
-- recursions on the list. The loops with a bound in the model are: the printing of a number (20
-- digits, enough for 64 bits), `strings_split` (the length of the memory, since its position grows),
-- the walk along the ports (the number of objects, enough for a list without repetition), the
-- sending of blocks (the number of bytes), the bytes of a number in the EEPROM (eight), and the
-- receiving of bytes and of messages, which go on as long as the device delivers: there the bound
-- is an argument, and meeting it has an outcome of its own that is no uint8_t.
--
-- Not modelled: writes out of the bounds of an array (the parts in `strings_split` and
-- `send_device_caps`, the channel digits in `encode`), a step of 0 of a dial, and what a failed
-- `encode`, split or decryption leaves in a buffer; an access to NULL is an outcome of its own. The
-- block cipher (code/c/common/opdi_aes.cpp) and the functions of a configuration are parameters. Of the
-- master (code/c/common/master) the serial and network devices, the connection thread, the status and
-- the listeners of a device, the ping thread, the cache of the capabilities and most texts for display
-- are left out, and so are the reading of numbers on the AVR, the platform Windows, the other
-- configurations and the Java programs. Of the Arduino programs the setup, the list of port objects, the
-- port of the clock and the serial line are left out.
pub mod Base
pub mod Constants
pub mod Platform
pub mod Strings
pub mod Message
pub mod Port
pub mod Slave
pub mod Master
pub mod Configs
