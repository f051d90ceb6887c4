-- ===== src/Mpsciq/Reverse.antt =====
-- `prs_mpsciq_build_reverse` links all nodes of the queue in both directions.
use prs.Base.{
  ℕ, zero, suc, ◌<◌, ◌≡◌, ◌≢◌, refl, ◌∙◌, sym, ap, subst, Bool-cases, inl, inr, true, false, some,
  List, [], ◌∷◌, ◌++◌, arith, ◌==◌, if◌then◌else◌, length,
}
use prs.Chain.{update_if}
use prs.Chain.Seg.{
  has, first_or, last_or, Seg, Apart, Apart-sym, last-append, not-first, Seg-start, Seg-append,
  Seg-ne_zero,
}
use prs.Mpsciq.{Mpsciq, build_loop, built, build_reverse}
use prs.Mpsciq.Queue.{Fresh, IsQueue}

-- The `prev` links that the loop writes from `x` on: along `r`, and of `t`, where it stops.
link_back : (prev : ℕ → ℕ) → (x : ℕ) → (r : List ℕ) → (t : ℕ) → ℕ → ℕ
link_back prev x [] t = update_if prev t x
link_back prev x (y ∷ r) t = link_back (update_if prev y x) y r t

module _ (next prev : ℕ → ℕ) (t : ℕ) where
  build_loop-link :
      (fuel : ℕ) (p : ℕ → ℕ) (x : ℕ) (r : List ℕ)
      → Fresh next prev t (x ∷ r)
      → has t r ≡ false
      → length r < fuel
      → build_loop fuel next p t x ≡ some (link_back p x r t, last_or x r)
  unfolding build_loop link_back
  build_loop-link zero p x r f out fuel = absurd (omega arith)
  build_loop-link (suc n) p x [] f out fuel = rw (f.1) (ground arith)
  build_loop-link (suc n) p x (y ∷ r) f out fuel =
      let ne : (y == t) ≡ false = ground arith in
      rw (f.1, ne) (build_loop-link n (update_if p y x) y r f.4 (ground arith) (omega arith))

  link_back-other :
      (p : ℕ → ℕ) (x : ℕ) (r : List ℕ) (z : ℕ)
      → has z r ≡ false
      → (z == t) ≡ false
      → link_back p x r t z ≡ p z
  unfolding link_back
  link_back-other p x [] z out ne = ground arith
  link_back-other p x (y ∷ r) z out ne =
      link_back-other (update_if p y x) y r z (ground arith) ne ∙ ground arith

  link_back-end : (p : ℕ → ℕ) (x : ℕ) (r : List ℕ) → t ≢ 0 → link_back p x r t t ≡ last_or x r
  unfolding link_back
  link_back-end p x [] ne = ground arith
  link_back-end p x (y ∷ r) ne = link_back-end (update_if p y x) y r ne

  link_back-Seg :
      (p : ℕ → ℕ) (x : ℕ) (r : List ℕ) (b : ℕ)
      → Fresh next prev t (x ∷ r)
      → has t (x ∷ r) ≡ false
      → p x ≡ b
      → Seg next (link_back p x r t) b t (x ∷ r)
  unfolding link_back
  link_back-Seg p x [] b f out e =
      (link_back-other p x [] x refl (ground arith) ∙ e, f.1, f.2, f.3, tt)
  link_back-Seg p x (y ∷ r) b f out e = (
    link_back-other p x (y ∷ r) x f.3 (ground arith) ∙ e,
    f.1,
    f.2,
    f.3,
    link_back-Seg (update_if p y x) y r x f.4 (ground arith) (ground (arith, f.4.2)),
  )

-- A node that ends a run, or null, is not in the run.
end-out :
    (next prev : ℕ → ℕ) (t : ℕ) (ys zs : List ℕ)
    → Fresh next prev t ys
    → Apart ys zs
    → has (first_or 0 zs) ys ≡ false
end-out next prev t [] zs f apart = refl
end-out next prev t (y ∷ ys) zs f apart =
    let mine : has y (y ∷ ys) ≡ true = ground arith in
    ground (
      arith,
      not-first y zs f.2 (apart y mine),
      end-out next prev t ys zs f.4 (λ x h. apart x (ground arith)),
    )

-- The links of all nodes are built: the queue holds the same nodes, and its `head` and `next` links
-- are as before.
pub record Built (q : Mpsciq) (xs : List ℕ) (r : Mpsciq) : Type 0 where
  pub is : IsQueue r [] xs
  pub next : r.next ≡ q.next
  pub head : r.head ≡ q.head

module _ (q : Mpsciq) (x : ℕ) (ys zs : List ℕ) (is : IsQueue q (x ∷ ys) zs) where
  out : has (first_or 0 zs) (x ∷ ys) ≡ false
  out = end-out q.next q.prev (first_or 0 zs) (x ∷ ys) zs is.fresh is.apart

  apart_back : (z : ℕ) → has z zs ≡ true → has z (x ∷ ys) ≡ false
  apart_back = Apart-sym (x ∷ ys) zs is.apart

  at_zs :
      (z : ℕ)
      → has z zs ≡ true
      → link_back q.prev x ys (first_or 0 zs) z
        ≡ (if z == first_or 0 zs then last_or x ys else q.prev z)
  at_zs z h = elim (Bool-cases (z == first_or 0 zs)) [
    | inl e ↦
        let same : z ≡ first_or 0 zs = ground arith in
        let some_node = Seg-ne_zero q.next q.prev zs 0 0 z is.linked h in
        rw e (
          ap (link_back q.prev x ys (first_or 0 zs)) same
          ∙ link_back-end q.next q.prev (first_or 0 zs) q.prev x ys
              (subst (λ a. a ≢ 0) same some_node))
    | inr e ↦
        let away = apart_back z h in
        rw e (link_back-other q.next q.prev (first_or 0 zs) q.prev x ys z (ground arith) e)
  ]

  back : Seg q.next (link_back q.prev x ys (first_or 0 zs)) (last_or x ys) 0 zs
  back = Seg-start q.next q.prev q.next _ (last_or x ys) zs 0 0 is.linked (λ z h. refl) at_zs

  -- The `prev` link of the head is written by no round.
  front : Seg q.next (link_back q.prev x ys (first_or 0 zs)) 0 (first_or 0 zs) (x ∷ ys)
  front = link_back-Seg q.next q.prev (first_or 0 zs) q.prev x ys 0 is.fresh out is.fresh.0

  last-ne :
      (next prev : ℕ → ℕ) (b a x : ℕ) (xs : List ℕ)
      → Seg next prev b a (x ∷ xs)
      → (last_or x xs == 0) ≡ false
  last-ne next prev b a x [] s = ground (arith, s.2)
  last-ne next prev b a x (y ∷ xs) s = last-ne next prev x a y xs s.4

  oldest :
      (zs : List ℕ)
      → Seg q.next q.prev 0 0 zs
      → (if last_or 0 zs == 0 then last_or x ys else last_or 0 zs) ≡ last_or (last_or x ys) zs
  oldest [] s = refl
  oldest (z ∷ zs) s = rw (last-ne q.next q.prev 0 0 z zs s) refl

  built-IsQueue :
      IsQueue (built q x (link_back q.prev x ys (first_or 0 zs), last_or x ys)) [] (x ∷ (ys ++ zs))
  unfolding built
  built-IsQueue = record {
    fresh = tt;
    linked =
        Seg-append q.next (link_back q.prev x ys (first_or 0 zs)) (x ∷ ys) zs 0 0 front back
          is.apart;
    apart = λ z h. absurd (ground arith);
    head = is.head;
    reverse_tail = refl;
    reverse_head = rw is.reverse_head (oldest zs is.linked ∙ sym (last-append x ys zs));
    small = is.small;
  }

  rest : Built q (x ∷ (ys ++ zs)) (built q x (link_back q.prev x ys (first_or 0 zs), last_or x ys))
  unfolding built
  rest = record { is = built-IsQueue; next = refl; head = refl }

  out_tail : has (first_or 0 zs) ys ≡ false
  out_tail = tail_out (first_or 0 zs) out
    where
      tail_out : (t : ℕ) → has t (x ∷ ys) ≡ false → has t ys ≡ false
      tail_out t h = ground arith

  loop :
      (fuel : ℕ)
      → length (x ∷ ys) < fuel
      → build_loop fuel q.next q.prev q.reverse_tail q.head
        ≡ some (link_back q.prev x ys (first_or 0 zs), last_or x ys)
  loop fuel enough =
      rw (is.head, is.reverse_tail)
        (build_loop-link q.next q.prev (first_or 0 zs) fuel q.prev x ys is.fresh out_tail
          (omega arith))

-- `prs_mpsciq_build_reverse` ends.
pub build_reverse-Built :
    (fuel : ℕ) (q : Mpsciq) (ys zs : List ℕ)
    → IsQueue q ys zs
    → length ys < fuel
    → (r : Mpsciq) × (build_reverse fuel q q.head ≡ some r) × Built q (ys ++ zs) r
unfolding build_reverse
build_reverse-Built fuel q [] zs is enough =
    (q, rw (is.head, is.reverse_tail) (ground arith), record { is = is; next = refl; head = refl })
build_reverse-Built fuel q (x ∷ ys) zs is enough =
    let new : (q.head == q.reverse_tail) ≡ false =
      rw (is.head, is.reverse_tail) (ground (arith, out q x ys zs is)) in
    (
      _,
      rw (new, loop q x ys zs is fuel enough)
          (ap (λ h. some (built q h (link_back q.prev x ys (first_or 0 zs), last_or x ys)))
            is.head),
      rest q x ys zs is,
    )
