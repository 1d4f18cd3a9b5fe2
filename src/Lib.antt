-- ===== src/Lib.antt =====
-- libwebauthn, a WebAuthn client platform: its transports, the CTAP protocols, and the ceremonies.
--
-- The parts and the modules that model them (paths from the repository's root):
-- - Hid: libwebauthn/src/transport/hid. Hid/Message, Hid/Packets and Hid/Parser are framing.rs: a message is cut
--   into packets, and a parser puts it together; Hid/Channel is the sending and receiving of
--   channel.rs over reports.
-- - Ble: libwebauthn/src/transport/ble. Ble/Frame, Ble/Fragments and Ble/Parser are framing.rs;
--   Ble/Connection is btleplug/connection.rs.
-- - Uv: how a ceremony verifies the user. Uv/Info is proto/ctap2/model/get_info.rs (the options and
--   `uv_operation`); Uv/Token is the token store of transport/channel.rs; Uv/Records and Uv/Persistent are
--   pin/persistent_token.rs; Uv/Pin, Uv/Round and Uv/Flow are webauthn/pin_uv_auth_token.rs
--   (`try_to_set_pin` with `change_pin_internal` of pin/mod.rs; the loop of
--   `user_verification_helper`; `user_verification` itself), all under libwebauthn/src. Uv/World is
--   what the code talks to: its state holds the replies of the device and the entries of the user
--   that are to come, the request that is filled in, the channel's token data and the persistent
--   store, and a log of the calls. Uv/World/Triple is a Hoare logic for it; Uv/World/Budget and Uv/World/Quiet
--   count the replies that are left. Uv/Crypto is the parameter for the cryptography,
--   and for the order in which a HashMap lists its entries.
-- - Apdu: libwebauthn/src/proto/ctap1/apdu. Apdu/Request is request.rs with both of its forms, Apdu/Response is response.rs.
-- - Fido2: the commands around user verification, over the same Uv/World. Fido2/Limits, Fido2/Retry
--   and Fido2/Assertion are libwebauthn/src/webauthn.rs (the limits of getInfo, the macro
--   `handle_errors` with the loop around a command, `get_assertion_fido2`); Fido2/Preflight is
--   proto/ctap2/preflight.rs.
-- - AuthData: libwebauthn/src/fido.rs, the bytes of authenticator data.
-- - Nfc: libwebauthn/src/transport/nfc/channel.rs. Nfc/Channel chains a message over APDUs and puts
--   a response in pieces together; the reader answers from a list. cbor_send runs on fuel, and one
--   round more than the message has bytes is enough; decoding the last response is CborResponse's.
-- - Cable: libwebauthn/src/transport/cable. Cable/Digits is digit_encode.rs, with a round for each byte
--   of the input as fuel, and no fewer than one byte to a chunk.
-- - Hints: libwebauthn/src/ops/webauthn/hints.rs, the order in which transports are offered.
-- - Domains: libwebauthn/src/ops/webauthn, which rpIds an origin may use. Domains/Text is the part of
--   Rust's `str` that the code uses; Domains/Suffix is psl/mod.rs with the check of idl/origin.rs;
--   Domains/Dafsa is psl/dafsa.rs; Domains/RpId is idl/rpid.rs; Domains/Related is
--   related_origins/mod.rs. The URL, IDNA and IP address parsers are parameters.
--
-- The transports carry messages for the layer above; the ceremonies are modelled over the replies
-- that such a transport brings.
--
-- Conventions. A byte string is a list of numbers; `as u16` is `% 65536`. A `&mut self` method returns the
-- new state beside its result. What devices, clocks and users do comes in as events or replies, one
-- for each round of a loop. A panic on overflow of a debug build is not modelled: arithmetic wraps.
-- Fuel: the loop of Hid/Packets takes 128 rounds, after which its counter leaves its range; the
-- loop of Ble/Fragments takes a round for each byte, and every round uses up a byte at least. The
-- loop of Uv/Round takes one round more than there are replies, and the dialog of Uv/Pin one more
-- than there are entries; every round that goes on uses one up.
-- The loop of Fido2/Retry takes three rounds: each that goes on gives up a token from before, and
-- there are two kinds.
-- The loop of Domains/Suffix takes a round for each label, and Domains/Dafsa says how many rounds a
-- lookup takes at most: each goes forward in the graph or in the key.
--
-- Not modelled: opening devices, Bluetooth and NFC input and output, CBOR encoding, cryptography,
-- timeouts by wall clock, logging, and the override of the feature `virt`.
pub mod Cable
pub mod Prelude
pub mod Hid
pub mod Hints
pub mod Ble
pub mod Apdu
pub mod AuthData
pub mod Domains
pub mod Fido2
pub mod Nfc
pub mod Uv
