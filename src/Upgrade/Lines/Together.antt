-- ===== src/Upgrade/Lines/Together.antt =====
-- The contracts of a line that is accepted.
use persistent_memory_stack.Prelude.{
  All, Bool, Bool-cases, List, Option, [], ap, false, if◌then◌else◌, inl, inr, is_some, none, refl,
  some, true, ◌∷◌, ◌≡◌,
}
use persistent_memory_stack.Prelude.Text.{Text, codes, text_eq}
use persistent_memory_stack.Prelude.Result.{ok, ok-injective, on_bind, ◌>>=◌}
use persistent_memory_stack.Prelude.Assoc.{HasUniqueKeys, insert, insert-HasUniqueKeys, lookup}
use persistent_memory_stack.Json.{Json, Props, field}
use persistent_memory_stack.Upgrade.Contract.{Contract, require_version, validate_contract}
use persistent_memory_stack.Upgrade.Contract.Sound.{IsSound, validate_contract-IsSound}
use persistent_memory_stack.Upgrade.Lines.{
  ReleaseRecord, marked, select_records, validate_each, validate_release_line, versions_of,
}

abbrev pub IsSoundAt : List Text → Text × Contract → Type 0
IsSoundAt available (version, c) = IsSound version available c

pub validate_each-IsSound :
    (available : List Text) (selected : List (Text × Json)) (m : List (Text × Contract))
    → validate_each available selected ≡ ok m
    → All (IsSoundAt available) m × (versions_of m ≡ versions_of selected)
unfolding validate_each
validate_each-IsSound available [] m h = rw (← ok-injective h) (tt, refl)
validate_each-IsSound available ((version, raw) ∷ rest) m h =
    on_bind (validate_contract raw version available) _ h λ c e h.
      on_bind (validate_each available rest) _ h λ cs f h.
        let (sound, same) = validate_each-IsSound available rest cs f in
        rw (← ok-injective h) (
          (validate_contract-IsSound raw version available c e, sound),
          ap (λ vs. version ∷ vs) same,
        )

select_records-HasUniqueKeys :
    (line : Text) (rs : List ReleaseRecord) (selected chosen : List (Text × Json))
    → HasUniqueKeys selected
    → select_records line rs selected ≡ ok chosen
    → HasUniqueKeys chosen
unfolding select_records
select_records-HasUniqueKeys line [] selected chosen u h = rw (← ok-injective h) u
select_records-HasUniqueKeys line (r ∷ rs) selected chosen u h =
    by_mark (marked line r.package_json) h
      (λ s v k. select_records-HasUniqueKeys line rs s chosen v k)
  where
    by_mark :
        (found : Option Props)
        → (elim found [
          | none ↦ select_records line rs selected
          | some ps ↦ require_version (field (codes "version") ps) >>= λ version.
              select_records line rs (
                if is_some (lookup version selected)
                then selected
                else insert version r.contract selected)
        ])
          ≡ ok chosen
        → ((s : List (Text × Json))
            → HasUniqueKeys s
            → select_records line rs s ≡ ok chosen
            → HasUniqueKeys chosen)
        → HasUniqueKeys chosen
    by_mark none h go = go selected u h
    by_mark (some ps) h go =
        on_bind (require_version (field (codes "version") ps)) _ h
          λ version _ h. go _ (kept version (is_some (lookup version selected))) h
      where
        kept :
            (version : Text) (b : Bool)
            → HasUniqueKeys (if b then selected else insert version r.contract selected)
        kept version true = u
        kept version false = insert-HasUniqueKeys version r.contract selected u

lookup-versions_of :
    {A B : Type 0} (k : Text) (m : List (Text × A)) (n : List (Text × B))
    → versions_of m ≡ versions_of n
    → lookup k n ≡ none
    → lookup k m ≡ none
unfolding lookup
lookup-versions_of k [] n e h = refl
lookup-versions_of k ((i, a) ∷ m) [] e h = absurd (cc e)
lookup-versions_of k ((i, a) ∷ m) ((j, b) ∷ n) e h = elim (Bool-cases (text_eq j k)) [
  | inl t ↦ absurd (cc (rw (t, lookup) at h))
  | inr t ↦
      let same : i ≡ j = cc e in
      let rest : versions_of m ≡ versions_of n = cc e in
      rw (same) (rw (t, lookup) (lookup-versions_of k m n rest (rw (t, lookup) at h)))
]

versions_of-HasUniqueKeys :
    {A B : Type 0} (m : List (Text × A)) (n : List (Text × B))
    → versions_of m ≡ versions_of n
    → HasUniqueKeys n
    → HasUniqueKeys m
unfolding HasUniqueKeys
versions_of-HasUniqueKeys [] n e u = tt
versions_of-HasUniqueKeys ((i, a) ∷ m) [] e u = absurd (cc e)
versions_of-HasUniqueKeys ((i, a) ∷ m) ((j, b) ∷ n) e (h, u) =
    let same : i ≡ j = cc e in
    let rest : versions_of m ≡ versions_of n = cc e in
    (rw same (lookup-versions_of j m n rest h), versions_of-HasUniqueKeys m n rest u)

-- In a line that is accepted, each version has one contract, and each contract is sound for its own
-- version with exactly the versions of the line as the published ones.
pub validate_release_line-IsSound :
    (records : List ReleaseRecord) (line : Text) (m : List (Text × Contract))
    → validate_release_line records line ≡ ok m
    → All (IsSoundAt (versions_of m)) m × HasUniqueKeys m
unfolding validate_release_line
validate_release_line-IsSound records line m h =
    on_bind (select_records line records []) _ h λ selected e h.
      let (sound, same) = validate_each-IsSound (versions_of selected) selected m h in
      let unique =
        select_records-HasUniqueKeys line records [] selected (unfold HasUniqueKeys in tt) e in
      (rw same sound, versions_of-HasUniqueKeys m selected same unique)
