-- ===== src/Tests/Datagrams.antt =====
-- Runs of the QUIC side and of JA4T.
use browserfp.Prelude.{
  ℕ, ◌≡◌, refl, inl, inr, List, [], ◌∷◌, ◌++◌, replicate, some, none, false, ok, arith,
}
use browserfp.Bytes.{byte_at, u16_at, u24_at, slice, pack16, be16}
use browserfp.Quic.Reassemble.{overwrite, collect, framed, reassemble_client_hello}
use browserfp.Quic.Whole.{reassemble-whole}
use browserfp.Quic.Initial.{Crypto, parse_initial, parse_initial-Ends}
use browserfp.Tcp.Options.{TcpOption, options_from, parse_tcp_options}
use browserfp.Tcp.Syn.{sizes_from, parse_tcp, syn_at, parse_syn, from_syn}
use browserfp.Tcp.Reading.{parse_tcp_options-encode, from_syn-Ends}
use browserfp.Prelude.Ends.{Ends}
use browserfp.Quic.Frames.{Chunk, crypto_frames, crypto_frames-Ends}

-- Padding, a ping, and a CRYPTO frame of two bytes.
crypto_frames-Ends_example : Ends (crypto_frames (0 ∷ 1 ∷ 6 ∷ 0 ∷ 2 ∷ 1 ∷ 0 ∷ []))
crypto_frames-Ends_example = crypto_frames-Ends (0 ∷ 1 ∷ 6 ∷ 0 ∷ 2 ∷ 1 ∷ 0 ∷ [])

-- A ClientHello of six bytes in two chunks that overlap, the later one first.
abbrev hello_parts : List Chunk
hello_parts = (2, 0 ∷ 2 ∷ 7 ∷ 8 ∷ []) ∷ (0, 1 ∷ 0 ∷ 0 ∷ []) ∷ []

abbrev small_hello : List ℕ
small_hello = 1 ∷ 0 ∷ 0 ∷ 2 ∷ 7 ∷ 8 ∷ []

abbrev small_record : List ℕ
small_record = 0x16 ∷ 0x03 ∷ 0x01 ∷ 0 ∷ 6 ∷ small_hello

small_record_eq : reassemble_client_hello hello_parts ≡ ok small_record
unfolding reassemble_client_hello collect overwrite framed u24_at byte_at pack16
small_record_eq = refl

reassemble-whole_example : small_record ≡ 0x16 ∷ 0x03 ∷ 0x01 ∷ be16 6 ++ small_hello
reassemble-whole_example =
    reassemble-whole small_hello hello_parts small_record refl (refl, (refl, tt)) small_record_eq

-- A cryptography that answers with zeros, and a datagram of the right shape.
abbrev zero_crypto : Crypto
zero_crypto = record {
  hmac = λ salt input. replicate 32 0;
  hkdf_expand = λ secret info n. replicate n 0;
  aes_ecb = λ key block. some (replicate 16 0);
  aes_gcm = λ key nonce payload header. some (0 ∷ 6 ∷ 0 ∷ 2 ∷ 1 ∷ 0 ∷ []);
}

parse_initial-Ends_example :
    Ends (parse_initial zero_crypto (0xc0 ∷ 0 ∷ 0 ∷ 0 ∷ 1 ∷ 0 ∷ 0 ∷ 0 ∷ 4 ∷ replicate 24 0))
parse_initial-Ends_example = parse_initial-Ends zero_crypto _

-- An MSS of 1460, a NOP, a window scale of 7, then the end of the list and a byte of padding.
abbrev syn_options : List TcpOption
syn_options = (2, 5 ∷ 180 ∷ []) ∷ (1, []) ∷ (3, 7 ∷ []) ∷ []

parse_tcp_options-encode_example :
    parse_tcp_options (2 ∷ 4 ∷ 5 ∷ 180 ∷ 1 ∷ 3 ∷ 3 ∷ 7 ∷ 0 ∷ 9 ∷ []) ≡ ok syn_options
parse_tcp_options-encode_example =
    parse_tcp_options-encode syn_options (0 ∷ 9 ∷ [])
      (
        inr ((λ e. omega arith), (λ e. omega arith)),
        (inl (refl, refl), (inr ((λ e. omega arith), (λ e. omega arith)), tt)),
      )
      refl

-- An IPv4 header, a TCP header with the SYN flag, and those options.
abbrev syn_packet : List ℕ
syn_packet =
    0x45 ∷ replicate 8 0
    ++ (6 ∷ replicate 10 0)
    ++ (replicate 12 0 ++ (0x80 ∷ 0x02 ∷ 0xfa ∷ 0xf0 ∷ replicate 4 0))
    ++ (2 ∷ 4 ∷ 5 ∷ 180 ∷ 1 ∷ 3 ∷ 3 ∷ 7 ∷ 0 ∷ 0 ∷ 0 ∷ 0 ∷ [])

from_syn-Ends_example : Ends (from_syn syn_packet none)
from_syn-Ends_example = from_syn-Ends syn_packet none

syn_packet_eq :
    parse_syn syn_packet none
    ≡ ok (record {
      window_size = 64240;
      options = 2 ∷ 1 ∷ 3 ∷ [];
      mss = some 1460;
      window_scale = some 7;
      is_syn_ack = false;
    })
unfolding parse_syn syn_at parse_tcp parse_tcp_options options_from sizes_from byte_at u16_at slice
syn_packet_eq = refl
