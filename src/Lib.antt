-- ===== src/Lib.antt =====
-- sframe, an implementation of secure frames (draft-ietf-sframe-enc-00): a sender encrypts media frames
-- one by one, and a receiver finds the key and the count of each in its header and decrypts it.
--
-- The parts and their files, with the code's paths from the repository's root:
--
--   src/error.rs                    Outcome: the errors, and what a call comes to. A panic is an outcome
--                                   of its own. Outcome/Slices: slices at a seam.
--   src/header/keyid.rs             KeyId.
--   src/header/util.rs              Header/Util; Util/Bytes, Minimal and Padding have its laws.
--   src/header/frame_count.rs       Header/FrameCount; FrameCount/Wheel and
--                                   FrameCount/Runs are about the generator.
--   src/header/basic_header.rs      Header/Basic; Basic/Write and Basic/Read compute what it writes and
--                                   reads.
--   src/header/extended_header.rs   Header/Extended, with Extended/Write, Remainder, Read and
--                                   Fill.
--   src/header/mod.rs               Header/Structs and Header/Codec. Codec/Parse describes the format on
--                                   its own; Codec/Fields, Written, RoundTrip, Valid, Bounds and Padded
--                                   compare the code with it; Builds, with LongCount and Checked, is
--                                   about both builds of it. Header/Traits has the traits,
--                                   Traits/Contract what they promise together, and Passes, Checked
--                                   and Implementors that the three implementations keep it.
--   examples/generate_headers.rs    Header/Generated.
--   src/frame_validation.rs         FrameValidation; Window says which counts pass, Replay what that
--                                   lets through.
--   src/crypto/cipher_suite.rs      Crypto/CipherSuite.
--   src/crypto/secret.rs            Crypto/Secret; Secret/Nonce is about create_nonce.
--   src/crypto/key_expansion.rs     Crypto/KeyExpansion.
--   src/crypto/aead.rs              Crypto/Aead, with Aead/Laws and Aead/Bounds.
--   src/sender.rs                   Sender; Sender/Described describes the whole of encrypt on its own,
--                                   and Frames, Keys, Nonces, Overhead, Refusals, WellFormed and Reached
--                                   are about its methods.
--   src/receiver.rs                 Receiver; Receiver/Secrets is its map of keys and Receiver/KeyMap
--                                   the quotient of it by its lookups; Described describes the whole of
--                                   decrypt on its own, Service what a receiver promises its callers and
--                                   Service/Refines compares the code with it, Forged says what a frame
--                                   of any bytes can change and Blocked what one does to all that
--                                   follow; Frames, Keys, Refusals, WellFormed, Total, Padded, Observed
--                                   and Reachable are about its methods.
--   tests/integration.rs            Session: both ends together. Session/IntegrationTest has the four
--                                   tests. Session/Frames, Linked, Setup and Counts carry frames in turn,
--                                   Lossy over a channel that loses some,
--                                   Delivery one frame to a receiver at any time; Network lets frames
--                                   arrive in any order and number, Network/Channel is what it is to
--                                   come to, Refines and Fresh compare both, Recovery is about a window
--                                   ahead of its sender. Meeting has any number of senders with one
--                                   receiver, forged frames of any bytes and removals of keys,
--                                   Meeting/Room is what it is to come to, and Hosts, Speaking, Hearing,
--                                   Refines and Fresh compare both; Shared is about its one window, and
--                                   Rekeyed about new keys.
--                                   Truncated and Shortened show where a payload is lost or changed.
--   src/util.rs, src/test_vectors.rs, and the unit tests in the files above
--                                   UnitTests: Util, Vectors, and a module for the tests of each part. A
--                                   test is a function that returns, or panics where it fails.
--
-- Prelude has the shared names and the lemmas on lists and tests, Exec the monad of the methods.
-- Examples has concrete crates and ends, and the theorems applied to them.
--
-- How the code corresponds. A function keeps its name and the order of its steps. A method that changes
-- its object is an action of Exec: a function from the object to an Outcome and the object as the method
-- leaves it, also when it fails. A buffer that is written in place is such an object. Integers are natural
-- numbers: an operation of the code that may overflow is checked and panics where a build with overflow
-- checks does, a cast keeps its `% 2 ^ w`. Lengths and indices (usize) are not bounded, since a slice of
-- the machine's memory never reaches that bound. An index or a slice out of range is a panic.
--
-- Two crates are parameters. Bitfield is the interface of what `bitfield!` generates: reading and writing
-- the bits of a byte, with the crate's documented order MSB0. Crypto/Ring is the interface of `ring`: its
-- lengths, that opening undoes sealing under the same key, nonce and associated data, and when HKDF refuses
-- a length. Nothing is assumed about secrecy, and nothing about what tampered frames decrypt to.
--
-- The loops of the code run over known numbers of rounds and are recursions on those or on lists, so no
-- fuel is needed.
--
-- The frames on their way in Session/Network and Session/Meeting are a list with the last frame first, and an
-- event delivers the frame in one place of it; so loss, repetition and reordering are the sequences of events.
--
-- The functions on headers whose names end in _with take the constant LEN_OFFSET of src/header/mod.rs,
-- which is 0 with the feature verify-test-vectors; those without are the default build.
--
-- Not modelled: logging and benches. What AES and HKDF make of a text is not compared with the
-- bytes that tests expect, since neither is modelled: of the tests of the format on the wire the rest is
-- proved, the vectors' decryption follows from their encryption, and their nonces from their secrets.
pub mod Prelude
pub mod KeyId
pub mod Outcome
pub mod Bitfield
pub mod Header
pub mod Exec
pub mod FrameValidation
pub mod Crypto
pub mod Sender
pub mod Receiver
pub mod Session
pub mod UnitTests
pub mod Examples
