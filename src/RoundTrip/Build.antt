-- ===== src/RoundTrip/Build.antt =====
-- The round trip of a whole build.
use browserfp.Builder.Draw.{Draw}
use browserfp.Builder.Assemble.{decode_bodies}
use browserfp.Prelude.{
  ℕ, ◌+◌, ◌<◌, ◌≤◌, ◌≡◌, ◌⊎◌, refl, sym, ap, subst, ◌∙◌, Bool, true, false, List, [], ◌∷◌, length,
  All, Option, some, none, ok, ◌>>=◌, ok-injective, arith,
}
use browserfp.ClientHello.Known.{nothing_known, read_extensions}
use browserfp.ClientHello.Parse.{Extension, ids, hello_of, parse_client_hello}
use browserfp.ClientHello.Fingerprint.{Fingerprint}
use browserfp.Builder.Draw.{Secrets, Draw, draw_bind, lift_bind, lift-eq_ok}
use browserfp.Builder.Regrease.{Grease, regrease_list}
use browserfp.Builder.Regrease.Laws.{length-regrease_list}
use browserfp.Builder.Padding.Bounds.{padded_len, pad_length}
use browserfp.Builder.Padding.{ext_bytes_wo_padding}
use browserfp.Builder.Padding.{hello_len, pad}
use browserfp.Builder.Assemble.{decode_bodies, hello_bytes, record_bytes}
use browserfp.Builder.Build.{
  Options, refuse_resumption, regreased, bytes_or_draw, session_or_draw, grease_or_pick,
  extension_bytes, extension_order, build_client_hello,
}
use browserfp.RoundTrip.Blocks.{encode, Fits}
use browserfp.RoundTrip.Wire.{wire, length-wire, hello_bytes-eq_ok, record_bytes-eq_ok}
use browserfp.RoundTrip.Reading.{parse_body-wire}
use browserfp.RoundTrip.Sent.{real, extension_bytes-eq_ok, pad-eq_ok}

-- A value that some step of a computation draws.
abbrev pub StepOf : {A : Type 0} → Draw A → A → Type 0
StepOf m a = (i : ℕ) × (j : ℕ) × (m i ≡ ok (a, j))

-- A random that the caller gives has 32 bytes; an empty one counts as not given.
abbrev pub HasRandom : Option (List ℕ) → Type 0
HasRandom none = Unit
HasRandom (some []) = Unit
HasRandom (some (b ∷ bs)) = length (b ∷ bs) ≡ 32

pub length-bytes_or_draw :
    (rng : Secrets) (given : Option (List ℕ)) (i : ℕ) {r : List ℕ × ℕ}
    → HasRandom given
    → bytes_or_draw rng 32 given i ≡ ok r
    → length r.0 ≡ 32
unfolding bytes_or_draw
length-bytes_or_draw rng none i h e =
    ap (λ (p : List ℕ × ℕ). length p.0) (sym (ok-injective e)) ∙ rng.length-token_bytes i 32
length-bytes_or_draw rng (some []) i h e =
    ap (λ (p : List ℕ × ℕ). length p.0) (sym (ok-injective e)) ∙ rng.length-token_bytes i 32
length-bytes_or_draw rng (some (b ∷ bs)) i h e =
    ap (λ (p : List ℕ × ℕ). length p.0) (sym (ok-injective e)) ∙ h

-- A session id that the caller gives has the length that the profile says.
abbrev pub HasSession : ℕ → Option (List ℕ) → Type 0
HasSession n none = Unit
HasSession n (some s) = length s ≡ n

length-session_or_draw :
    (rng : Secrets) (n : ℕ) (given : Option (List ℕ)) (i : ℕ) {r : List ℕ × ℕ}
    → HasSession n given
    → session_or_draw rng n given i ≡ ok r
    → length r.0 ≡ n
unfolding session_or_draw
length-session_or_draw rng n none i h e =
    ap (λ (p : List ℕ × ℕ). length p.0) (sym (ok-injective e)) ∙ rng.length-token_bytes i n
length-session_or_draw rng n (some s) i h e =
    ap (λ (p : List ℕ × ℕ). length p.0) (sym (ok-injective e)) ∙ h

length-regreased :
    (grease : Option Grease) (cs : List ℕ)
    → length (regreased grease (λ g xs. regrease_list xs (g.cipher ∷ [])) cs) ≡ length cs
length-regreased none cs = refl
length-regreased (some g) cs = length-regrease_list (g.cipher ∷ []) cs

length-record :
    (profile : Fingerprint) (hello : List ℕ) (record_version : ℕ)
    (random session ciphers padded : List ℕ) {rec : List ℕ}
    → hello_bytes profile.client_version random session ciphers profile.compression padded
      ≡ ok hello
    → record_bytes record_version hello ≡ ok rec
    → length random ≡ 32
    → length ciphers ≡ length profile.raw_ciphers
    → length rec + profile.session_id_len ≡ hello_len profile padded + 5 + length session
unfolding hello_len
length-record profile hello record_version random session ciphers padded eh er h32 hc =
    let (_, spelled) =
      hello_bytes-eq_ok profile.client_version random session ciphers profile.compression padded
        eh in
    let (_, _, _, _, n) = record_bytes-eq_ok record_version hello er in
    omega (
      arith,
      n,
      ap length spelled,
      length-wire profile.client_version random session ciphers profile.compression padded,
      h32,
      hc,
    )

-- What a verbatim build must keep of the extensions, and what a fresh one must.
abbrev pub kept : Bool → List Extension → List Extension
kept true es = es
kept false es = real es

-- What a build has put into its record: the parts, each with the step that made it, and that the
-- parser finds them there.
pub record Built (sha256 : List ℕ → List ℕ) (fuel : ℕ) (rng : Secrets) (profile : Fingerprint)
    (args : Options) (rec : List ℕ) : Type 0 where
  pub bodies : List (ℕ × List ℕ)
  pub decoded : decode_bodies profile.extension_bodies ≡ ok bodies
  pub grease : Option Grease
  pub grease_step : StepOf (grease_or_pick rng args.verbatim args.grease) grease
  pub order : List ℕ
  pub ordered : extension_order sha256 fuel args grease profile.raw_extensions ≡ ok order
  pub built : List Extension
  pub built_order : ids built ≡ order
  pub built_step : StepOf (extension_bytes rng args bodies grease order) (encode built)
  pub random : List ℕ
  pub random_step : StepOf (bytes_or_draw rng 32 args.random32) random
  pub session : List ℕ
  pub session_step : StepOf (session_or_draw rng profile.session_id_len args.session_id) session
  pub sent : List Extension
  pub same : kept args.verbatim sent ≡ kept args.verbatim built
  pub padded : List ℕ
  pub padding : pad args.verbatim profile (encode built) ≡ ok padded
  pub rec_length :
      length rec + profile.session_id_len ≡ hello_len profile padded + 5 + length session
  pub parsed : parse_client_hello rec ≡ (
      read_extensions nothing_known sent >>= λ known. ok (
        hello_of args.record_version profile.client_version
          (length session)
          random
          profile.compression
          (regreased grease (λ g cs. regrease_list cs (g.cipher ∷ [])) profile.raw_ciphers)
          sent
          known))

kept-sent :
    (verbatim : Bool) (sent built : List Extension)
    → real sent ≡ real built
    → (verbatim ≡ true → sent ≡ built)
    → kept verbatim sent ≡ kept verbatim built
kept-sent true sent built r v = v refl
kept-sent false sent built r v = r

parse-record :
    (rec hello : List ℕ) (record_version version : ℕ) (random session ciphers compression : List ℕ)
    (sent : List Extension)
    → hello_bytes version random session ciphers compression (encode sent) ≡ ok hello
    → record_bytes record_version hello ≡ ok rec
    → length random ≡ 32
    → All Fits sent
    → parse_client_hello rec ≡ (
        read_extensions nothing_known sent >>= λ known.
        ok (hello_of record_version version (length session) random compression ciphers sent known))
unfolding parse_client_hello
parse-record rec hello record_version version random session ciphers compression sent eh er h32 w =
    let (packed, spelled) = hello_bytes-eq_ok version random session ciphers compression _ eh in
    let message = wire version random session ciphers compression (encode sent) in
    let (n2, n1, n0, body, _) = record_bytes-eq_ok record_version message (rw spelled at er) in
    rw body (
      parse_body-wire version random session ciphers compression sent n2 n1 n0 record_version h32
        packed w)

-- With a random of 32 bytes or none given, a record that the builder returns is read by the parser as
-- the version, the length of the session id, the random, the compression methods, the ciphers and the
-- extensions that the steps of the build chose; only padding may be dropped or added, and not even
-- that when the build is verbatim. What the parser then says is what `read_extensions` says of the
-- extensions sent.
pub parse-build :
    (sha256 : List ℕ → List ℕ) (fuel : ℕ) (rng : Secrets) (profile : Fingerprint) (args : Options)
    (i : ℕ) (r : List ℕ × ℕ)
    → HasRandom args.random32
    → build_client_hello sha256 fuel rng profile args i ≡ ok r
    → Built sha256 fuel rng profile args r.0
unfolding build_client_hello
parse-build sha256 fuel rng profile args i r h32 h =
    lift_bind (refuse_resumption args profile) _ i h λ _ e0 h0.
      lift_bind (decode_bodies profile.extension_bodies) _ i h0 λ bodies e1 h1.
        draw_bind (grease_or_pick rng args.verbatim args.grease) _ i h1 λ grease j e2 h2.
          lift_bind (extension_order sha256 fuel args grease profile.raw_extensions) _ j h2
            λ order e3 h3.
              draw_bind (extension_bytes rng args bodies grease order) _ j h3 λ block k e4 h4.
                lift_bind (pad args.verbatim profile block) _ k h4 λ padded e5 h5.
                  draw_bind (bytes_or_draw rng 32 args.random32) _ k h5 λ random l e6 h6.
                    draw_bind (session_or_draw rng profile.session_id_len args.session_id) _ l h6
                      λ session m e7 h7.
                        let ciphers =
                          regreased grease (λ g cs. regrease_list cs (g.cipher ∷ []))
                            profile.raw_ciphers in
                        lift_bind
                          (hello_bytes profile.client_version random session ciphers
                            profile.compression padded)
                          _ m h7
                          λ hello e8 h8.
                            let (items, w, q, z) =
                              extension_bytes-eq_ok rng args bodies grease order j e4 in
                            let p = pad-eq_ok args.verbatim profile items w (rw z at e5) in
                            record {
                              bodies = bodies;
                              decoded = e1;
                              grease = grease;
                              grease_step = (i, j, e2);
                              order = order;
                              ordered = e3;
                              built = items;
                              built_order = q;
                              built_step = (j, k, rw (← z) e4);
                              random = random;
                              random_step = (k, l, e6);
                              session = session;
                              session_step = (l, m, e7);
                              sent = p.sent;
                              same = kept-sent args.verbatim p.sent items p.same_real p.same;
                              padded = padded;
                              padding = rw z at e5;
                              rec_length =
                                  length-record profile hello args.record_version random session
                                    ciphers padded e8 (lift-eq_ok _ m h8)
                                    (length-bytes_or_draw rng args.random32 k h32 e6)
                                    (length-regreased grease profile.raw_ciphers);
                              parsed =
                                  parse-record r.0 hello args.record_version profile.client_version
                                    random session ciphers profile.compression p.sent
                                    (rw p.spelled at e8) (lift-eq_ok _ m h8)
                                    (length-bytes_or_draw rng args.random32 k h32 e6) p.fits;
                            }

padded_gap : (n len : ℕ) → len ≡ padded_len n + 5 → (len < 261) ⊎ (517 ≤ len)
padded_gap n len h = ground arith

-- Built fresh, with a random of 32 bytes or none given and a session id of the profile's length or
-- none given, a record never has 256 to 511 bytes in its handshake message, which is five less than
-- the record.
pub build_length :
    (sha256 : List ℕ → List ℕ) (fuel : ℕ) (rng : Secrets) (profile : Fingerprint) (args : Options)
    (i : ℕ) (r : List ℕ × ℕ)
    → args.verbatim ≡ false
    → HasRandom args.random32
    → HasSession profile.session_id_len args.session_id
    → build_client_hello sha256 fuel rng profile args i ≡ ok r
    → (length r.0 < 261) ⊎ (517 ≤ length r.0)
build_length sha256 fuel rng profile args i r fresh h32 hs h =
    let b = parse-build sha256 fuel rng profile args i r h32 h in
    let p : pad false profile (encode b.built) ≡ ok b.padded =
      subst (λ v. pad v profile (encode b.built) ≡ ok b.padded) fresh b.padding in
    padded_gap (hello_len profile (ext_bytes_wo_padding (encode b.built))) (length r.0) (
      omega (
        arith,
        b.rec_length,
        length-session_or_draw rng profile.session_id_len args.session_id b.session_step.0 hs
            b.session_step.2,
        pad_length profile (encode b.built) b.padded p,
      ))
