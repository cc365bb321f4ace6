-- ===== src/Sessions/Lease/Counting.antt =====
-- The counter is the number of leases that are held.
use native.Mathlib.Numerals.{unary_clauses}
use persistent_memory_stack.Prelude.{
  ==_iff, All, Bool, List, Option, [], ap, arith, false, get_elem?, ltb, none, refl, some, suc, sym,
  true, zero, ℕ, ◌&&◌, ◌++◌, ◌+◌, ◌<◌, ◌↔◌, ◌∙◌, ◌∷◌, ◌≡◌,
}
use persistent_memory_stack.Prelude.Int.{pos, ℤ}
use persistent_memory_stack.Sessions.Lease.Released.{
  AllReleased, AllReleased-iff, IsLastActivity, handle_all-Tells,
}
use persistent_memory_stack.Sessions.Lease.{
  Event, IdleLifecycle, began, begin_work, decrement, finished, handle, handle_all, increment,
  is_zero, release, set_released, should_exit, start, touch, touched,
}

held : List Bool → ℕ
held [] = 0
held (false ∷ bs) = held bs + 1
held (true ∷ bs) = held bs

held-append : (bs : List Bool) → held (bs ++ (false ∷ [])) ≡ held bs + 1
unfolding held
held-append [] = refl
held-append (true ∷ bs) = held-append bs
held-append (false ∷ bs) = rw (held-append bs)

held-set_released :
    (i : ℕ) (bs : List Bool) → get_elem? bs i ≡ some false → held bs ≡ held (set_released i bs) + 1
unfolding held set_released
held-set_released i [] h = absurd (cc)
held-set_released zero (false ∷ bs) h = refl
held-set_released zero (true ∷ bs) h = absurd (cc)
held-set_released (suc i) (false ∷ bs) h = rw (held-set_released i bs h)
held-set_released (suc i) (true ∷ bs) h = held-set_released i bs h

IsCounted : IdleLifecycle → Type 0
IsCounted l = l.active_work ≡ pos (held l.released)

decrement-suc : (n : ℤ) (m : ℕ) → n ≡ pos (m + 1) → decrement n ≡ pos m
decrement-suc n m e = rw e (simp unary_clauses refl)

increment-pos : (n : ℤ) (m : ℕ) → n ≡ pos m → increment n ≡ pos (m + 1)
increment-pos n m e = rw e refl

handle-IsCounted : (e : Event) (l : IdleLifecycle) → IsCounted l → IsCounted (handle e l)
unfolding handle IsCounted touch begin_work release
handle-IsCounted (touched now) l h = h
handle-IsCounted began l h = increment-pos l.active_work _ h ∙ ap pos (sym (held-append l.released))
handle-IsCounted (finished now i) l h = by_flag (get_elem? l.released i) refl
  where
    by_flag :
        (flag : Option Bool)
        → get_elem? l.released i ≡ flag
        → IsCounted (elim flag [
          | none ↦ l
          | some true ↦ l
          | some false ↦ touch now (record l {
            active_work = decrement l.active_work;
            released = set_released i l.released;
          })
        ])
    by_flag none e = h
    by_flag (some true) e = h
    by_flag (some false) e =
        decrement-suc l.active_work _ (h ∙ ap pos (held-set_released i l.released e))

handle_all-IsCounted :
    (es : List Event) (l : IdleLifecycle) → IsCounted l → IsCounted (handle_all es l)
unfolding handle_all
handle_all-IsCounted [] l h = h
handle_all-IsCounted (e ∷ es) l h =
    handle-IsCounted e (handle_all es l) (handle_all-IsCounted es l h)

All-released_iff : (bs : List Bool) → (held bs ≡ 0) ↔ All (λ b. b ≡ true) bs
unfolding held
All-released_iff [] = ground arith
All-released_iff (true ∷ bs) = ground (arith, All-released_iff bs)
All-released_iff (false ∷ bs) = ((λ h. absurd (omega arith)), λ (h, _). cc)

is_zero_iff : (n : ℤ) (m : ℕ) → n ≡ pos m → (is_zero n ≡ true) ↔ (m ≡ 0)
is_zero_iff n m e = rw e (==_iff m 0)

-- After any sequence of activity, leases and releases, repeated releases of one lease included, there
-- is a time of the last activity, by the events themselves: the start, a touch, or the release of a
-- lease that was held; and the installer may exit exactly when each lease given out was released and
-- the timeout has passed since that time.
pub should_exit_iff :
    (timeout begun now : ℕ) (past : List Event)
    → (t : ℕ) × IsLastActivity begun past t
      × ((should_exit now (handle_all past (start timeout begun)) ≡ true)
          ↔ (AllReleased past × (t + timeout < now)))
unfolding should_exit
should_exit_iff timeout begun now past =
    let l = handle_all past (start timeout begun) in
    let counted : IsCounted l =
      handle_all-IsCounted past (start timeout begun) (unfold IsCounted start held in refl) in
    let tells = handle_all-Tells timeout begun past in
    let (to, from) = AllReleased-iff timeout begun past l tells in
    let test : ((is_zero l.active_work && ltb (l.last_activity + l.timeout_ms) now) ≡ true)
        ↔ (All (λ b. b ≡ true) l.released × (l.last_activity + l.timeout_ms < now)) =
      unfold IsCounted in
      ground
        (arith, is_zero_iff l.active_work (held l.released) counted, All-released_iff l.released) in
    (
      l.last_activity,
      tells.time,
      (
        (λ h. let (every, late) = test.0 h in (to every, omega (arith, tells.keeps))),
        λ (every, late). test.1 (from every, omega (arith, tells.keeps)),
      ),
    )
