-- ===== src/Lib.antt =====
-- scll is a smart-card library in Rust: it installs, deletes and locks applets on GlobalPlatform
-- cards over a secure channel. This library models the core of the crate crates/scll-core.
--
-- The parts, and how they work together:
--
-- * Tlv models crates/scll-core/src/tlv.rs, the reader and writer of BER-TLV objects that every
--   response parser and some builders rest on. `Tlv.Grammar` is the grammar, stated apart from the
--   code; `Tlv.Decode`, `Tlv.Rounds` and `Tlv.Parse` are about the reader, `Tlv.Encode` and
--   `Tlv.RoundTrip` about the writer, `Tlv.Short` about objects with one-octet tags and lengths.
--   The Rust cursor (a slice and a position) is the list of the octets that remain. A tag is a u32
--   and a length a usize of 64 bits; the shifts that cut off high bits are written out.
-- * Command models crates/scll-core/src/command: `build`, `push` and `push_lv` of mod.rs, the small
--   builders in `Command.Builders`, install.rs in `Command.Install`, put_key.rs in `Command.PutKey`.
--   A builder returns the octets of a short command or a `BuildError`. `Command.Apdu` is how a card
--   takes a command apart (ISO/IEC 7816-4); `Command.Frame`, `Command.Builders.Scopes`,
--   `Command.Install.Fields` and `Command.PutKey.Blocks` say what it reads.
-- * Error holds the error types of crates/scll-core/src/error.rs and of the parts it wraps.
-- * Lifecycle models `check_transition` of crates/scll-core/src/lifecycle.rs and the coding of the
--   states (`raw_byte` of workflow/card_status.rs, `decode_life_cycle` of response.rs).
--   `Lifecycle.Matrix` has the graph of GlobalPlatform's figure 5-1 as a step relation.
-- * Scp models crates/scll-core/src/scp: `select` of mod.rs and `i_supported`, the host's side of
--   the SCP03 handshake of scp03.rs in `Scp.Scp03` (`begin` in `Scp.Scp03.Open`) and of the SCP02
--   handshake of scp02.rs in `Scp.Scp02` (`begin` in `Scp.Scp02.Opened`), and the open channel
--   `ScpSession` in `Scp.Sessions`. `Scp.Backend` has the traits of crates/scll-core/src/backend as
--   records of operations on a world `W` (key and session tables): an implementation is a
--   parameter, and nothing is assumed of it.
-- * Session models crates/scll-core/src/workflow/session.rs: one exchange with the card, in the
--   clear or through the open channel; `Session.Name` is the name in the answer to SELECT. The
--   transport is a parameter too; `&mut ScpSession` is a part
--   of the state that an exchange takes and gives back.
-- * Aid models crates/scll-core/src/aid.rs.
-- * Workflow models crates/scll-core/src/workflow: `Workflow.OpenScp` is open_scp.rs, which selects,
--   asks for the protocol and authenticates (`OpenScp.Update` is its first command,
--   `OpenScp.Conversation` the exchange, `OpenScp.By03`, `OpenScp.By02` and `OpenScp.Authenticated`
--   the two handshakes within it); `Workflow.CardStatus`
--   is card_status.rs, with the paging of GET STATUS in `CardStatus.Paging`, `CardStatus.Whole` and
--   `CardStatus.Division`, the change of the card's state in `CardStatus.Transitions`, and the
--   inventory in `CardStatus.Inventory`; `Workflow.InstallParams` and `Workflow.Managed` are
--   applet.rs and ssd.rs (`Managed.Asked`, `Managed.Removal` and `Managed.Answered` are about the
--   commands that are sent); `Workflow.Load` is
--   load_package of ssd.rs (`Load.Sending` is what becomes of the blocks, `Load.Whole` is about files
--   that are not compressed); `Workflow.Keys` is keys.rs, where the encryption of keys is a record of
--   operations. A report is the record of what the source reports, with its warnings.
-- * Cap models crates/scll-core/src/cap: the zip directory here, with the search for its end in
--   `Cap.Eocd` and the bounds of the walk in `Cap.Located`, the small components in `Cap.Metadata`,
--   the header of the load file in `Cap.Lfdb`,
--   the stream of load blocks in `Cap.Stream` (`Stream.Blocks` is about
--   stored components), and the file as a whole in `Cap.File`. The
--   decompressor of the crate miniz_oxide is a parameter, of which nothing is assumed.
-- * Response models the parsers of crates/scll-core/src/response.rs, those for GET STATUS and the
--   Card Capability Information in `Response.Status`; `Response.Keysets` and `Response.Template` are
--   about the grouping of keys by version number, `Response.Status.Bounds` about truncation.
-- * Prelude holds the native numbers and lists that all parts use, results, slices that panic out of
--   range, actions on the world, facts on bits, and `Prelude.Heapless`, the fixed-capacity vectors
--   of the crate heapless: a parameter with the documented contract of `push` and
--   `extend_from_slice`. Tests holds runs at concrete inputs.
--
-- `Result.stuck` marks what is no value of the program: a loop of the model without rounds left, or
-- a panic. The loop of `parse` is given one round for each octet of the input, and a round takes two
-- octets at least. GET STATUS is asked for at most 16 pages, as in the source. The loop of
-- `next_block` has room + 13 rounds: a round that writes nothing passes one of the 11 components or
-- is the last. The loop of `emit_deflate` has a round for each octet that is written or read, twice
-- over, since each round of the source writes an octet, or makes the decompressor consume or produce.
-- The loop of `load_package` has one round more than a load file has octets at most, and each round
-- but the last sends an octet. All other loops are structural.
--
-- Not modelled: the workflows discover.rs, probe.rs and transmit.rs, the crypto
-- backend, and the card manager, which passes calls on. The transports do input and output only;
-- reports and models are data.
pub mod Prelude
pub mod Tlv
pub mod Command
pub mod Error
pub mod Lifecycle
pub mod Scp
pub mod Session
pub mod Response
pub mod Aid
pub mod Cap
pub mod Workflow
mod Tests
