-- ===== src/Upgrade/Version/Order.antt =====
-- The order of versions, and what the sign of `compareUpgradeVersions` says of it.
use persistent_memory_stack.Prelude.{arith, true, ◌<◌, ◌↔◌, ◌≡◌, ◌⊎◌}
use persistent_memory_stack.Prelude.Int.{pos}
use persistent_memory_stack.Upgrade.Version.{
  Version, compare_parsed, is_negative, is_positive, next_patch,
}

-- Lexicographic order, as semantic versioning has it.
abbrev pub Precedes : Version → Version → Type 0
Precedes v w =
    (v.major < w.major)
    ⊎ ((v.major ≡ w.major) × ((v.minor < w.minor) ⊎ ((v.minor ≡ w.minor) × (v.patch < w.patch))))

pub Precedes-trans : (u v w : Version) → Precedes u v → Precedes v w → Precedes u w
Precedes-trans u v w h k = ground arith

pub Precedes-irrefl : (v : Version) → ¬ Precedes v v
Precedes-irrefl v h = ground arith

Version-eq : (v w : Version) → v.major ≡ w.major → v.minor ≡ w.minor → v.patch ≡ w.patch → v ≡ w
Version-eq v w h k l = ground arith

pub is_positive-compare : (v w : Version) → (is_positive (compare_parsed v w) ≡ true) ↔ Precedes w v
unfolding compare_parsed
is_positive-compare v w = ground arith

pub is_negative-compare : (v w : Version) → (is_negative (compare_parsed v w) ≡ true) ↔ Precedes v w
unfolding compare_parsed
is_negative-compare v w = ground arith

compare_parsed-eq-zero : (v w : Version) → (compare_parsed v w ≡ pos 0) ↔ (v ≡ w)
unfolding compare_parsed
compare_parsed-eq-zero v w = ground arith

-- Nothing lies strictly between a version and its next patch.
next_patch_least : (v w : Version) → Precedes v w → (w ≡ next_patch v) ⊎ Precedes (next_patch v) w
next_patch_least v w h = ground arith
