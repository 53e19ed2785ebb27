-- ===== src/Tray/Icon.antt =====
-- internal/tray/tray_windows.go: `createIcon`, `binaryLE16` and `binaryLE32`. An access behind the
-- end of the bytes is a panic, `none`. The sizes are positive: `int32Result` never gives another.
pub mod Laws
use omni_sshagent.Base.{
  ℕ, zero, suc, ◌+◌, ◌-◌, ◌*◌, ◌^◌, Bool, true, false, not, ◌&&◌, ◌||◌, List, [], ◌∷◌, Option, none,
  some, ltb, ◌==◌, length, take, drop, get_elem?, if◌then◌else◌,
}
use omni_sshagent.Base.Text.{Text}
use omni_sshagent.Files.{Bytes}

-- A read behind the end of the file, a panic in Go, is `none`, and nothing follows it.
infixl 5 ◌>>=◌
abbrev pub ◌>>=◌ {ℓ κ} :
    {A : Type ℓ} {B : Type κ} (reading : Option A) (next : A → Option B) → Option B
reading >>= next = elim reading [ none ↦ none | some value ↦ next value ]

-- The bytes of a number have no bits in common, so `|` adds them.
unfoldable pub le16 : Bytes → ℕ → Option ℕ
le16 b i = do low ← get_elem? b i; high ← get_elem? b (i + 1); some (low + high * 256)

unfoldable pub le32 : Bytes → ℕ → Option ℕ
le32 b i = do low ← le16 b i; high ← le16 b (i + 2); some (low + high * 65536)

-- `abs` of a difference.
unfoldable pub distance : ℕ → ℕ → ℕ
distance a b = if ltb a b then b - a else a - b

-- 0 stands for 256.
unfoldable pub icon_size : ℕ → ℕ
icon_size n = if n == 0 then 256 else n

-- How far entry `i` of the directory is from the wanted size.
unfoldable pub score : Bytes → ℕ → ℕ → ℕ → Option ℕ
score ico width height i = do
  w ← get_elem? ico (6 + i * 16)
  h ← get_elem? ico (6 + i * 16 + 1)
  some (distance (icon_size w) width + distance (icon_size h) height)

pub record Best : Type 0 where
  pub offset : ℕ
  pub size : ℕ
  pub best_score : ℕ

unfoldable pub take_entry : Bytes → ℕ → ℕ → Option Best
take_entry ico i s = do
  size ← le32 ico (6 + i * 16 + 8)
  offset ← le32 ico (6 + i * 16 + 12)
  some (record { offset = offset; size = size; best_score = s })

-- One round of the loop over the directory.
unfoldable pub better : Bytes → ℕ → ℕ → ℕ → Best → Option Best
better ico width height i best = do
  s ← score ico width height i
  if ltb s best.best_score then take_entry ico i s else some best

-- The rounds `i`, `i + 1`, ..., `n` of them.
unfoldable pub choose : Bytes → ℕ → ℕ → ℕ → ℕ → Best → Option Best
choose ico width height zero i best = some best
choose ico width height (suc n) i best = do
  next ← better ico width height i best
  choose ico width height n (i + 1) next

abbrev pub no_entry : Best
no_entry = record { offset = 0; size = 0; best_score = 2 ^ 62 }

pub data Image : Type 0 where
  invalid truncated outside : Image
  -- The bytes that are handed to `CreateIconFromResourceEx`.
  image : Bytes → Image

unfoldable pub cut : Bytes → Best → Image
cut ico best =
    if best.size == 0 || ltb (length ico) (best.offset + best.size)
    then outside
    else image (take best.size (drop best.offset ico))

from_directory : Bytes → ℕ → ℕ → ℕ → Option Image
unfolding cut
from_directory ico width height count =
    if count == 0 || ltb (length ico) (6 + count * 16)
    then some truncated
    else (do best ← choose ico width height count 0 no_entry; some (cut ico best))

from_count : Bytes → ℕ → ℕ → Option Image
unfolding from_directory
from_count ico width height = do count ← le16 ico 4; from_directory ico width height count

unfoldable pub create_icon : Bytes → ℕ → ℕ → Option Image
unfolding from_count
create_icon ico width height = if ltb (length ico) 6 then some invalid else (do
  kind ← le16 ico 2
  if not (kind == 1) then some invalid else from_count ico width height)
