-- ===== src/Lib.antt =====
-- browserfp: fingerprints of browsers' TLS and QUIC handshakes, in the reference implementation that
-- oracle/ holds. A fingerprint is read off a captured ClientHello, kept as a profile, and built again
-- as a message that a peer cannot tell from the browser's.
--
-- The parts of the program and the files about them:
--   Prelude      lists, tests, dictionaries (insertion order kept) and Python's exceptions as values
--   Bytes, Text  byte strings and `struct`; hexadecimal and decimal text as lists of characters
--   ClientHello  oracle/clienthello.py: `parse_client_hello` (Parse), `_parse_known_extensions`
--                (Known), `is_grease` (Grease), `ja3` and `ja4` (Ja), `fingerprint` (Fingerprint)
--   Builder      oracle/chbuild.py: `_vec` (Vec), `pick_grease` and `_regrease_list` (Regrease),
--                `grease_ech` (Ech), `_build_key_share` (KeyShare), `permute_extensions` (Permute),
--                padding (Padding), and `build_client_hello` (Assemble, Build). Packing and Ending hold
--                proofs about how it ends
--   RoundTrip    the builder and the parser together. They share the record `Fingerprint`: the parser
--                makes a profile, the builder takes one
--   Quic         oracle/quic.py: `_parse_varint` (Varint), `parse_initial` and its key schedule
--                (Initial), `_crypto_frames` (Frames), `reassemble_client_hello` (Reassemble, Whole)
--   Tcp          oracle/ja4t.py: `parse_tcp_options` (Options), `parse_syn`, `_parse_tcp`, `ja4t` and
--                `from_syn` (Syn)
--   Match        oracle/match.py: `_norm` and `_diff` (Norm), `Matcher` with its two indexes, `find` and
--                `identify` (Matcher); Answers, Identify and Equal hold the proofs
--   Derive       oracle/derive.py: `apply_delta` (Delta, Dropped), and `platform_delta`, `verify_rule`,
--                `derive` and `h2_delta` (Rule, Verified)
--   Segments     oracle/segments.py: `segment` (Runs, Lossless), and `segment_substitutable` (Substitute,
--                Shown, Captured, Covered, Coherent, Evidence), which says in which segments UaMap may
--                take one version for another
--   Keyed        dictionaries by text
--   Registry     oracle/registry.py: `build` (Merge, Filed, Found), which makes the records that Match and
--                UaMap look up
--   Pattern      what oracle/uamap.py uses of `re` and `str`
--   UaMap        oracle/uamap.py: `parse_ua` and `chromium_engine` (UserAgent), the tables of `UAMapper`
--                (Table), `__init__` and the loaders of segments (Alias, Build), and `lookup` in steps
--                (Lookup); Strict, Exact, Bounds, Rows and Mapped hold the proofs
--   Tls          oracle/tls13.py: HKDF and `_Keys` (Schedule), the state of `TLS13Client` (Client),
--                `_recv_exact` and `_read_record` (Stream), `_decrypt_record`, `send` and `read` (Record),
--                `_read_server_hello` and `_parse_encrypted_extensions` (ServerHello, Utf8),
--                `_read_server_flight` (Flight), `_gen_shares`, `_build_hello` and the shared secret
--                (Handshake), and `handshake` (Session). The client builds its ClientHello with Builder
--                and reads it again with ClientHello. Library is the cryptographic library; Pieces, Whole,
--                Delivery, Draining, Fields, Ending and Termination hold the proofs
--   Tests        runs on concrete inputs
--
-- Representation. Bytes, code points and 16-bit words are native numbers; where the source packs
-- one, the range is checked as `struct.pack` and `bytes` check it. A dictionary is a list of pairs.
-- An exception is `err`, with the place that raises it or the class; `stuck` says that a loop ran
-- out of fuel, which no Python program does. A computation that draws from `secrets` counts its
-- draws and asks a parameter for the values (Builder/Draw), whose laws are the documented ones:
-- length, and range. A method of `TLS13Client` is a run: it takes the state, and gives a value with
-- the next state, or raises; the socket is the list of what `recv` will return. Characters are code
-- points, and the classes of `re` (\d, \w, \s, \b) are those of ASCII. SHA-256, MD5, HMAC, the HKDF
-- of oracle/quic.py, AES and the package `cryptography` are parameters, and so are the texts that
-- `json.dumps` makes.
--
-- Fuel. The parser's loops take a byte at least in each round, and the fuel is the length of what
-- they read, plus one. The rejection sampling in `permute_extensions` has no bound in the source, so
-- the caller gives its fuel; Builder/Permute/Ending says when it is enough. A record of TLS takes
-- five bytes, so the loops of oracle/tls13.py over records have the length of the stream, plus one;
-- Tls/Draining counts them.
--
-- Not modelled: `close` and `settimeout` of the TLS client, which only call the socket; sockets,
-- processes and files of the collectors, the readers of foreign source code, JSON, the C library and
-- the bindings to other languages.
pub mod Prelude
pub mod Bytes
pub mod Text
pub mod ClientHello
pub mod Builder
pub mod RoundTrip
pub mod Quic
pub mod Tcp
pub mod Match
pub mod Derive
pub mod Segments
pub mod Keyed
pub mod Registry
pub mod Pattern
pub mod UaMap
pub mod Tls
pub mod Tests
