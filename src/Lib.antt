-- ===== src/Lib.antt =====
-- The runtime of the Kyanite platform root of trust: the IPC codec between the AST2700 BootMCU and
-- the CA35, and the PFR core of the root-of-trust firmware.
--
-- Parts and files. The codec is Ipc (ipc-proto/src/lib.rs): Ipc has the envelope types, Ipc.Wire
-- the varint, tag and field functions with their layout and how it is read back, Ipc.Encode
-- `encode`, Ipc.Decode `decode`, and Ipc.RoundTrip both together. The firmware is under
-- app-rot/src. Pfr is the state machine of pfr/mod.rs, `Machine::step_record`; Runtime is
-- runtime.rs with the loop of bin/rot_ast1060.rs, which hands the machine one record of the event
-- channel, performs the action, and sends the record of its success; Protocol is the mailbox
-- commands, checkpoints and update intents of protocol/mod.rs, which become records for the
-- machine. Manifest is manifest/mod.rs: the descriptors, the request queue (Manifest.Queue), keys
-- and attestation descriptors (Manifest.Keys) and `validate_manifest` (Manifest.Validation).
-- Verify is the engine of verify.rs, which validates a manifest and checks each of its images;
-- Filter is the SPI write protection of filter.rs, made from the regions of a manifest. Flash is
-- the layouts and recovery plans of flash/mod.rs, and Provision the commands of provision/mod.rs.
-- Platform is platform/mod.rs, with the default policy; Platform.Ast1060.Flash and .Crypto are the
-- backends of platform/ast1060.rs, which fill the parameters of Verify (Platform.Ast1060.Authentic
-- has both together), and Platform.Generic is the
-- sequencer of platform/generic.rs, which holds and releases the AST2700; Filter.Apply is the
-- application of a policy to the SPI monitors, before each release; Runtime.Board is the event loop
-- with the platform that it drives. Bootmcu is
-- bin/rot_ast2700_bootmcu.rs, the other firmware: Bootmcu.Boot is `main` up to the release of the
-- cores, with the requests to Caliptra in Bootmcu.Auth and the payload of the CA35 in Bootmcu.Ca35;
-- Bootmcu.Load is the loading of payloads, in three rounds; Bootmcu.Service is the loop behind the
-- release, and Bootmcu itself the handler of IPC requests, which decodes a frame with the codec and
-- encodes its reply.
-- Diag is the programs that bring a board up: Diag.Memory and Diag.Dram the tests of
-- bin/dram_init_bootmcu.rs and bin/sli_init_bootmcu.rs, Diag.Caliptra and Diag.Entropy
-- bin/caliptra_hello_bootmcu.rs, Diag.Print the routines that print numbers, Diag.Uart, Diag.Ticks,
-- Diag.Counting and Diag.Hello the programs that drive a UART (bin/uart5_bare.rs,
-- bin/uart5_systick.rs, bin/spi_*.rs and bin/hello_*.rs, app-a35/src/bin/hello_a35.rs and
-- app-coprocessor/ssp/src/bin/hello_uart.rs), and Diag.Echo the two ipc_echo programs.
-- Base has the shared names, lists, machine words and bit operations; Tests has runs of the model.
--
-- Correspondence. A definition has the name of the function or type that it models, in the
-- library's spelling; a loop is a function of its own. `&mut` state is an argument that is
-- returned: a buffer with its position is `Cursor`, a queue or a machine is returned with the
-- result. `u32` and `u64` are natural numbers with their bound as a hypothesis where it matters, and
-- the checked, saturating and truncating operations are written out in Base.Words; a shift by a
-- constant is a product or a quotient by a power of two. `usize` has 32 bits, as on the BootMCU.
-- The arrays `[T; N]` are lists of length `N`. The event channel is the list of the records that
-- wait in it, and the result of the verification in a round of the loop is a parameter of the
-- round, for which Runtime.Unprovisioned takes that of Verify on a manifest.
-- Flash, hash, signature and key material are the fields of Verify.Platform; the SPI bus and the
-- engines of the AST1060 those of Platform.Ast1060.Flash.SpiHal and .Crypto.CryptoHal; memory and
-- the transfers into it those of Bootmcu.Load.Bus, and the other calls of the BootMCU into its HAL
-- those of Bootmcu.Soc.Soc, over a state of the hardware that the calls return. `loop {}` is the end
-- of a sequence without a result (Bootmcu.Halt). The diagnostic programs have their HAL in
-- Diag.Dram.Hal, Diag.Caliptra.Hal and Diag.Echo.Hal, their memory in Diag.Memory.Ram and their
-- registers in Diag.Uart.Registers; what they print is what the UART is given, and a routine that
-- several programs repeat is modelled once. The sequencer and the monitors are driven by lists
-- of steps and calls, in the order of the source.
--
-- Bounds. `put_varint` runs for ten rounds, which are the groups of a `u64`; `get_varint` for
-- eleven, since the shift passes 64 before; a loop of the decoder for as many rounds as its buffer
-- has bytes, as each round reads one or more; `protect_range` for 512, the pages of the table; and
-- the write of the flash backend for as many rounds as it has bytes, as each round writes one or
-- more. The digits of a number are filled in ten rounds, the digits of a `u32`; a wait for the UART
-- has the fuel that it is given, which Diag.Uart.Sent takes larger than the reads that the UART
-- needs; a loop without an end runs for a number of rounds that is an argument.
--
-- Not modelled: the depth of the event channel, where a send waits while other tasks keep it full;
-- what an earlier digest leaves in the digest buffer, which starts with zeros in each call, its size
-- being an argument of the platform; timers, delays, logging, panic handlers, and what is behind the calls of the HAL; the
-- bit operations of the engines; start-up code in assembly (with app-a35/src/bin/probe_base_a35.rs);
-- and the modules that hold documentation, types or stubs only (crypto, event_log, the protocol
-- submodules, the entry points of the AST1040 and the AST1080, app-coprocessor/ssp/src).
pub mod Base
pub mod Pfr
pub mod Runtime
pub mod Protocol
pub mod Provision
pub mod Flash
pub mod Manifest
pub mod Filter
pub mod Verify
pub mod Bootmcu
pub mod Diag
pub mod Platform
pub mod Ipc
pub mod Tests
