-- ===== src/Cygwin/Nonce.antt =====
-- `parseSocketNonce` of internal/interfaces/cygwin/cygwin_windows.go on the text that `writeFiles`
-- writes.
use omni_sshagent.Base.{ℕ, suc, ◌<◌, [], ◌∷◌, ◌++◌, some, ◌≡◌, refl, ap, ◌∙◌, arith, All, length}
use omni_sshagent.Base.Text.{Text, codes, is_space, equal}
use omni_sshagent.Base.Words.{
  IsSolid, IsOther, fields, fields_space, fields_last, split, split_sep, split_last, join,
}
use omni_sshagent.Base.Hex.{
  IsByte, hex_encode, hex_decode, hex_decode-hex_encode, hex_encode-IsHexDigit,
}
use omni_sshagent.Base.Decimal.{All-append, decimal, atoi-decimal, decimal-IsSolid}
use omni_sshagent.Files.{Bytes}
use omni_sshagent.Cygwin.{nonce_text, socket_text, parse_fields, parse_nonce, parse_socket_nonce}

abbrev pub quad : ℕ → ℕ → ℕ → ℕ → Bytes → Bytes
quad a b c d rest = a ∷ b ∷ c ∷ d ∷ rest

pub first_four :
    (l : Bytes) (n : ℕ)
    → length l ≡ suc (suc (suc (suc n)))
    → (a : ℕ) × (b : ℕ) × (c : ℕ) × (d : ℕ) × (rest : Bytes) × (l ≡ quad a b c d rest)
      × (length rest ≡ n)
first_four (a ∷ b ∷ c ∷ d ∷ rest) n h = (a, b, c, d, rest, refl, omega arith)
first_four [] n h = absurd (omega arith)
first_four (a ∷ []) n h = absurd (omega arith)
first_four (a ∷ b ∷ []) n h = absurd (omega arith)
first_four (a ∷ b ∷ c ∷ []) n h = absurd (omega arith)

abbrev word_text : ℕ → ℕ → ℕ → ℕ → Text
word_text a b c d = hex_encode (d ∷ c ∷ b ∷ a ∷ [])

-- One word of the text: its characters, and its way back.
record WordLaws (a b c d : ℕ) : Type 0 where
  solid : All IsSolid (word_text a b c d)
  other : All (IsOther b'-') (word_text a b c d)
  decoded : hex_decode (word_text a b c d) ≡ some (d ∷ c ∷ b ∷ a ∷ [])

word_laws : (a b c d : ℕ) → IsByte a → IsByte b → IsByte c → IsByte d → WordLaws a b c d
word_laws a b c d ha hb hc hd =
    let bytes : All IsByte (d ∷ c ∷ b ∷ a ∷ []) = (hd, (hc, (hb, (ha, tt)))) in
    let (solid, other) = hex_encode-IsHexDigit (d ∷ c ∷ b ∷ a ∷ []) bytes in
    record {
      solid = solid;
      other = other;
      decoded = hex_decode-hex_encode (d ∷ c ∷ b ∷ a ∷ []) bytes;
    }

-- Four words with dashes between them.
abbrev dashed : Text → Text → Text → Text → Text
dashed w x y z = w ++ b'-' ∷ (x ++ b'-' ∷ (y ++ b'-' ∷ z))

split-dashed :
    (w x y z : Text)
    → All (IsOther b'-') w
    → All (IsOther b'-') x
    → All (IsOther b'-') y
    → All (IsOther b'-') z
    → split b'-' (dashed w x y z) ≡ w ∷ x ∷ y ∷ z ∷ []
split-dashed w x y z hw hx hy hz =
    split_sep b'-' w _ hw refl
    ∙ ap (◌∷◌ w) (
        split_sep b'-' x _ hx refl
        ∙ ap (◌∷◌ x) (split_sep b'-' y z hy refl ∙ ap (◌∷◌ y) (split_last b'-' z hz)))

dash-IsSolid : IsSolid b'-'
unfolding is_space
dash-IsSolid = refl

dashed-IsSolid :
    (w x y z : Text)
    → All IsSolid w
    → All IsSolid x
    → All IsSolid y
    → All IsSolid z
    → All IsSolid (dashed w x y z)
dashed-IsSolid w x y z hw hx hy hz = All-append IsSolid w _ hw (
  dash-IsSolid,
  All-append IsSolid x _ hx (dash-IsSolid, All-append IsSolid y _ hy (dash-IsSolid, hz)),
)

-- What the proof of the round trip needs of the text of a nonce.
record TextLaws (nonce : Bytes) : Type 0 where
  solid : All IsSolid (nonce_text nonce)
  parsed : parse_nonce (split b'-' (nonce_text nonce)) ≡ some nonce

-- The 16 bytes of a nonce, and that each is a byte.
record Sixteen (nonce : Bytes) : Type 0 where
  a : ℕ
  b : ℕ
  c : ℕ
  d : ℕ
  e : ℕ
  f : ℕ
  g : ℕ
  h : ℕ
  i : ℕ
  j : ℕ
  k : ℕ
  l : ℕ
  m : ℕ
  n : ℕ
  o : ℕ
  p : ℕ
  bytes : All IsByte (quad a b c d (quad e f g h (quad i j k l (quad m n o p []))))
  is_nonce : nonce ≡ quad a b c d (quad e f g h (quad i j k l (quad m n o p [])))

pub nil_of_length : (u : Bytes) → length u ≡ 0 → u ≡ []
nil_of_length [] h = refl
nil_of_length (x ∷ u) h = absurd (omega arith)

sixteen : (nonce : Bytes) → length nonce ≡ 16 → All IsByte nonce → Sixteen nonce
sixteen nonce size bytes =
    let (a, b, c, d, r, e1, n1) = first_four nonce 12 size in
    let (e, f, g, h, s, e2, n2) = first_four r 8 n1 in
    let (i, j, k, l, t, e3, n3) = first_four s 4 n2 in
    let (m, n, o, p, u, e4, n4) = first_four t 0 n3 in
    let whole : nonce ≡ quad a b c d (quad e f g h (quad i j k l (quad m n o p []))) =
      e1
      ∙ ap (quad a b c d) (
          e2
          ∙ ap (quad e f g h)
              (e3 ∙ ap (quad i j k l) (e4 ∙ ap (quad m n o p) (nil_of_length u n4)))) in
    record {
      a = a;
      b = b;
      c = c;
      d = d;
      e = e;
      f = f;
      g = g;
      h = h;
      i = i;
      j = j;
      k = k;
      l = l;
      m = m;
      n = n;
      o = o;
      p = p;
      bytes = rw whole at bytes;
      is_nonce = whole;
    }

Sixteen-TextLaws : (nonce : Bytes) → Sixteen nonce → TextLaws nonce
unfolding nonce_text join parse_nonce
Sixteen-TextLaws nonce x =
    let y = x.bytes in
    let z = y.1.1.1.1.1.1.1.1 in
    let w1 = word_laws x.a x.b x.c x.d y.0 y.1.0 y.1.1.0 y.1.1.1.0 in
    let w2 =
      word_laws x.e x.f x.g x.h y.1.1.1.1.0 y.1.1.1.1.1.0 y.1.1.1.1.1.1.0 y.1.1.1.1.1.1.1.0 in
    let w3 = word_laws x.i x.j x.k x.l z.0 z.1.0 z.1.1.0 z.1.1.1.0 in
    let w4 =
      word_laws x.m x.n x.o x.p z.1.1.1.1.0 z.1.1.1.1.1.0 z.1.1.1.1.1.1.0 z.1.1.1.1.1.1.1.0 in
    rw x.is_nonce (record {
      solid = dashed-IsSolid _ _ _ _ w1.solid w2.solid w3.solid w4.solid;
      parsed =
          ap parse_nonce (split-dashed _ _ _ _ w1.other w2.other w3.other w4.other)
          ∙ rw (w1.decoded, w2.decoded, w3.decoded, w4.decoded);
    })

-- The fields of a socket file's text.
fields-socket_text :
    (port : ℕ) (nonce : Bytes) (x : ℕ) (text : Text)
    → nonce_text nonce ≡ x ∷ text
    → All IsSolid (x ∷ text)
    → fields (socket_text port nonce)
      ≡ codes "!<socket" ∷ (b'>' ∷ decimal port) ∷ codes "s" ∷ (x ∷ text) ∷ []
unfolding socket_text is_space
fields-socket_text port nonce x text e solid = rw e (
    fields_space b'!' (codes "<socket") _ (ground arith)
    ∙ ap (◌∷◌ (codes "!<socket")) (
        fields_space b'>' (decimal port) _ (refl, decimal-IsSolid port)
        ∙ ap (◌∷◌ (b'>' ∷ decimal port))
            (fields_space b's' [] _ (refl, tt) ∙ ap (◌∷◌ (codes "s")) (fields_last x text solid))))

parse_fields-socket :
    (port : ℕ) (text : Text) (nonce : Bytes)
    → port < 65536
    → parse_nonce (split b'-' text) ≡ some nonce
    → parse_fields (codes "!<socket" ∷ (b'>' ∷ decimal port) ∷ codes "s" ∷ text ∷ []) ≡ some nonce
unfolding parse_fields equal
parse_fields-socket port text nonce h parsed = rw (atoi-decimal port (omega arith)) parsed

nonce_text-cons : (nonce : Bytes) → (x : ℕ) × (text : Text) × (nonce_text nonce ≡ x ∷ text)
unfolding nonce_text hex_encode join
nonce_text-cons nonce = (_, _, refl)

-- The socket file that `writeFiles` writes for a port and a nonce of 16 bytes is one from which
-- `parseSocketNonce` reads back just that nonce.
pub parse_socket_nonce-socket_text :
    (port : ℕ) (nonce : Bytes)
    → port < 65536
    → length nonce ≡ 16
    → All IsByte nonce
    → parse_socket_nonce (socket_text port nonce) ≡ some nonce
unfolding parse_socket_nonce
parse_socket_nonce-socket_text port nonce h size bytes =
    let laws = Sixteen-TextLaws nonce (sixteen nonce size bytes) in
    let (x, text, e) = nonce_text-cons nonce in
    rw (fields-socket_text port nonce x text e (rw e at laws.solid))
      (parse_fields-socket port (x ∷ text) nonce h (rw e at laws.parsed))
