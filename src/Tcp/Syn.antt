-- ===== src/Tcp/Syn.antt =====
-- `parse_syn`, `_parse_tcp`, `ja4t` and `from_syn` of oracle/ja4t.py.
use browserfp.Prelude.{
  ℕ, ◌+◌, ◌*◌, ◌/◌, ◌%◌, Bool, not, ◌&&◌, List, [], ◌∷◌, ◌++◌, map, length, filter, ltb, ◌==◌,
  if◌then◌else◌, bit_and, Option, some, none, Result, ok, err, raise_if, ◌>>=◌, ◌>>◌, no_ip_header,
  truncated_tcp, not_a_syn,
}
use browserfp.Bytes.{byte_at, slice, u16_at, first_word}
use browserfp.Text.{Text, text, str, join}
use browserfp.Tcp.Options.{TcpOption, parse_tcp_options}

pub record Syn : Type 0 where
  pub window_size : ℕ
  pub options : List ℕ
  pub mss : Option ℕ
  pub window_scale : Option ℕ
  pub is_syn_ack : Bool

-- The loop over the options: the last MSS with two bytes, and the last window scale with one.
unfoldable pub sizes_from : Option ℕ → Option ℕ → List TcpOption → Result (Option ℕ × Option ℕ)
sizes_from mss wscale [] = ok (mss, wscale)
sizes_from mss wscale ((kind, val) ∷ rest) =
    let skip = sizes_from mss wscale rest in
    let with_mss = (do w ← first_word val; sizes_from (some w) wscale rest) in
    let with_wscale = (do b ← byte_at val 0; sizes_from mss (some b) rest) in
    if kind == 2 && length val == 2
    then with_mss
    else if kind == 3 && length val == 1
    then with_wscale
    else skip

-- The TCP header at `o`.
unfoldable pub parse_tcp : List ℕ → ℕ → Result Syn
unfolding sizes_from
parse_tcp packet o = do
  raise_if (ltb (length packet) (o + 20)) truncated_tcp
  window ← u16_at packet (o + 14)
  b ← byte_at packet (o + 12)
  let data_off = b / 16 * 4
  flags ← byte_at packet (o + 13)
  raise_if (bit_and flags 0x02 == 0) not_a_syn
  opts ← parse_tcp_options (slice packet (o + 20) (o + data_off))
  (mss, wscale) ← sizes_from none none opts
  ok (record {
    window_size = window;
    options = map (λ (p : TcpOption). p.0) opts;
    mss = mss;
    window_scale = wscale;
    is_syn_ack = not (bit_and flags 0x10 == 0);
  })

-- The first of the offsets at which an IP header with TCP behind it stands. Both places where the
-- protocol may be named lie within the 20 bytes that are there.
unfoldable pub syn_at : List ℕ → List ℕ → Result Syn
unfolding parse_tcp
syn_at packet [] = err no_ip_header
syn_at packet (off ∷ offsets) =
    let next = syn_at packet offsets in
    let at_header = (do
      b ← byte_at packet off
      proto4 ← byte_at packet (off + 9)
      proto6 ← byte_at packet (off + 6)
      if b / 16 == 4
          then (if proto4 == 6 then parse_tcp packet (off + b % 16 * 4) else next)
          else if b / 16 == 6
          then (if proto6 == 6 then parse_tcp packet (off + 40) else next)
          else next) in
    if ltb (length packet) (off + 20) then next else at_header

abbrev pub offsets_of : Option ℕ → List ℕ
offsets_of none = 0 ∷ 4 ∷ 14 ∷ []
offsets_of (some off) = off ∷ []

unfoldable pub parse_syn : List ℕ → Option ℕ → Result Syn
unfolding syn_at
parse_syn packet link_offset = syn_at packet (offsets_of link_offset)

-- A value, or `00` where there is none; for the window scale 0 counts as none.
abbrev pub mss_text : Option ℕ → Text
mss_text none = text "00"
mss_text (some v) = str v

abbrev pub scale_text : Option ℕ → Text
scale_text none = text "00"
scale_text (some v) = if v == 0 then text "00" else str v

abbrev pub options_text : List ℕ → Text
options_text [] = text "00"
options_text (k ∷ ks) = join (text "-") (map str (k ∷ ks))

unfoldable pub ja4t : Syn → Text
ja4t parsed =
    let ids = filter (λ k. not (k == 0)) parsed.options in
    str parsed.window_size
    ++ (text "_"
        ++ (options_text ids
            ++ (text "_" ++ (mss_text parsed.mss ++ (text "_" ++ scale_text parsed.window_scale)))))

unfoldable pub from_syn : List ℕ → Option ℕ → Result Text
unfolding parse_syn
from_syn packet link_offset = do syn ← parse_syn packet link_offset; ok (ja4t syn)
