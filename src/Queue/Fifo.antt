-- ===== src/Queue/Fifo.antt =====
-- The queue of rbtlib/queue.c is a FIFO of unbounded capacity.
use smart_rabbit_server.Base.{
  ℕ, zero, suc, ◌+◌, ◌-◌, ◌*◌, ◌≤◌, ◌<◌, ◌≡◌, ◌≢◌, ◌∙◌, refl, sym, ap, subst, true, false, Option,
  none, some, List, [], ◌∷◌, ◌++◌, ◌==◌, ◌⊎◌, inl, inr, get_or, length, replicate, length-replicate,
  length-set, append_assoc, append-nil, max, arith,
}
use native.Mathlib.Numerals.{add-one}
use smart_rabbit_server.Queue.{
  Queue, next, init, empty, take_slot, fill_slot, copy_loop, resize, push_at, push, peek, pop,
  clear, count,
}
use smart_rabbit_server.Queue.Window.{
  window, behind, behind-next, behind-ne, next-behind, window-set, length-window, IsValid, contents,
}

room_or_full : (used size : ℕ) → (used + 1 < size) ⊎ (size ≤ used + 1)
room_or_full used size = ground arith

at_last :
    (size first last used : ℕ)
    → first < size
    → used < size
    → last ≡ behind size first used
    → (first == last) ≡ (used == 0)
at_last size first last used p r e = ground arith

zero_or_suc : (n : ℕ) → (n ≡ 0) ⊎ ((m : ℕ) × (n ≡ suc m))
zero_or_suc zero = inl refl
zero_or_suc (suc m) = inr (m, refl)

module _ {ℓ} {A : Type ℓ} where
  -- One push with room: the slot is the one behind the last element.
  take-IsValid :
      (q : Queue A) (x : Option A)
      → IsValid q
      → q.used + 1 < q.size
      → IsValid (fill_slot (take_slot q).1 (take_slot q).0 x)
        × (contents (fill_slot (take_slot q).1 (take_slot q).0 x) ≡ contents q ++ (x ∷ []))
  unfolding fill_slot take_slot
  take-IsValid q x v room = (
    record {
      sized = length-set q.list q.last x ∙ v.sized;
      first_in = v.first_in;
      spare = room;
      last_at = rw v.last_at (ground (arith, next-behind q.size q.first q.used));
    },
    rw (add-one q.used) (
        window-set none q.list q.size q.first q.used q.last x (omega arith) v.first_in v.spare
          v.last_at),
  )

  copy_loop-step :
      (push' : Queue A → Option (ℕ × Queue A)) (old : List (Option A)) (size fuel first last : ℕ)
      (q : Queue A)
      → first ≢ last
      → push' q ≡ some (take_slot q)
      → copy_loop push' (suc fuel) old size first last q
        ≡ copy_loop push' fuel old size
            (next size first)
            last
            (fill_slot (take_slot q).1 (take_slot q).0 (get_or old first none))
  unfolding copy_loop
  copy_loop-step push' old size fuel first last q ne e = ground arith

  -- The copying loop appends what it has not read yet, and stops by its own test.
  copy_loop-copies :
      (push' : Queue A → Option (ℕ × Queue A)) (old : List (Option A)) (size : ℕ)
      → ((q : Queue A) → q.used + 1 < q.size → push' q ≡ some (take_slot q))
      → (n fuel first last : ℕ) (q : Queue A) → n < fuel
      → n < size
      → first < size
      → last ≡ behind size first n
      → IsValid q
      → q.used + n + 1 < q.size
      → (q' : Queue A) × (copy_loop push' fuel old size first last q ≡ some q')
        × IsValid q'
        × (contents q' ≡ contents q ++ window none old size first n)
        × (q'.size ≡ q.size)
        × (q'.used ≡ q.used + n)
  unfolding copy_loop fill_slot take_slot
  copy_loop-copies push' old size hp n zero first last q f p i e v room = absurd (omega arith)
  copy_loop-copies push' old size hp zero (suc fuel) first last q f p i e v room =
      (q, ground arith, v, sym (append-nil (contents q)), refl, omega arith)
  copy_loop-copies push' old size hp (suc n) (suc fuel) first last q f p i e v room =
      let x = get_or old first none in
      let q1 = fill_slot (take_slot q).1 (take_slot q).0 x in
      let (v1, c1) = take-IsValid q x v (omega arith) in
      let (q', r, v', c', s', u') =
        copy_loop-copies push' old size hp n fuel (next size first) last q1 (omega arith)
          (omega arith) (ground arith) (e ∙ behind-next size first n i p) v1 (omega arith) in
      (
        q',
        copy_loop-step push' old size fuel first last q
              (λ f'. behind-ne size first n i p (sym e ∙ sym f')) (hp q (omega arith))
            ∙ r,
        v',
        c'
            ∙ ap (λ t. t ++ window none old size (next size first) n) c1
            ∙ append_assoc (contents q) (x ∷ []) (window none old size (next size first) n),
        s',
        omega arith,
      )

  fresh : ℕ → Queue A
  fresh n = record { list = replicate n none; used = 0; size = n; first = 0; last = 0 }

  fresh-IsValid : (n : ℕ) → 0 < n → IsValid (fresh n)
  unfolding fresh
  fresh-IsValid n p = record {
    sized = length-replicate n none;
    first_in = p;
    spare = p;
    last_at = ground arith;
  }

  push_at-room :
      (depth : ℕ) (q : Queue A) → q.used + 1 < q.size → push_at (suc depth) q ≡ some (take_slot q)
  unfolding push_at
  push_at-room depth q room = ground arith

  push_at-full :
      (depth : ℕ) (q g : Queue A)
      → resize (push_at depth) q ≡ some g
      → q.size ≤ q.used + 1
      → push_at (suc depth) q ≡ some (take_slot g)
  unfolding push_at
  push_at-full depth q g r full = ground arith

  -- `resize` keeps the elements and their order, and makes room.
  resize-contents :
      (depth : ℕ) (q : Queue A)
      → IsValid q
      → (q' : Queue A) × (resize (push_at (suc depth)) q ≡ some q')
        × IsValid q'
        × (contents q' ≡ contents q)
        × (q'.size ≡ q.size * 2 + 1)
        × (q'.used ≡ q.used)
  unfolding resize fresh
  resize-contents depth q v =
      let (q', r, v', c', s', u') =
        copy_loop-copies (push_at (suc depth)) q.list q.size (push_at-room depth) q.used q.size
          q.first q.last (fresh (q.size * 2 + 1)) v.spare v.spare v.first_in v.last_at
          (fresh-IsValid (q.size * 2 + 1) (omega arith)) (omega arith) in
      (q', r, v', c', s', omega arith)

  -- For a valid queue `rbtQ_push` always hands out a slot, growing the array when it has to, and
  -- once the caller has filled that slot the queue is valid and holds one element more, at the
  -- end.
  pub push-contents :
      (q : Queue A) (x : Option A)
      → IsValid q
      → (slot : ℕ) × (q' : Queue A) × (push q ≡ some (slot, q'))
        × IsValid (fill_slot q' slot x)
        × (contents (fill_slot q' slot x) ≡ contents q ++ (x ∷ []))
  unfolding push
  push-contents q x v =
      let (g, r, vg, cg, sg, ug) = resize-contents 0 q v in
      elim (room_or_full q.used q.size) [
        | inl room ↦
            let (v', c') = take-IsValid q x v room in
            ((take_slot q).0, (take_slot q).1, push_at-room 1 q room, v', c')
        | inr full ↦
            let (v', c') = take-IsValid g x vg (omega arith) in
            (
              (take_slot g).0,
              (take_slot g).1,
              push_at-full 1 q g r full,
              v',
              c' ∙ ap (λ t. t ++ (x ∷ [])) cg,
            )
      ]

  -- For a valid queue `rbtQ_empty` answers whether `rbtQ_count` is 0, and `rbtQ_count` is the
  -- number of elements.
  pub empty-count :
      (q : Queue A) → IsValid q → (empty q ≡ (count q == 0)) × (count q ≡ length (contents q))
  unfolding empty count
  empty-count q v = (
    at_last q.size q.first q.last q.used v.first_in v.spare v.last_at,
    sym (length-window none q.list q.size q.first q.used),
  )

  pop-none : (q : Queue A) → (q.first == q.last) ≡ true → (pop q ≡ q) × (peek q ≡ none)
  unfolding peek pop empty
  pop-none q e = ground arith

  pop-some :
      (q : Queue A)
      → (q.first == q.last) ≡ false
      → (pop q ≡ record q { first = next q.size q.first; used = q.used - 1 })
        × (peek q ≡ some q.first)
  unfolding peek pop empty
  pop-some q e = ground arith

  tail-IsValid :
      (q : Queue A) (m : ℕ)
      → IsValid q
      → q.used ≡ suc m
      → IsValid (record q { first = next q.size q.first; used = q.used - 1 })
  tail-IsValid q m v e = record {
    sized = v.sized;
    first_in = ground arith;
    spare = omega arith;
    last_at =
        v.last_at
        ∙ ap (behind q.size q.first) e
        ∙ behind-next q.size q.first m v.first_in (omega arith)
        ∙ ap (behind q.size (next q.size q.first)) (omega arith);
  }

  tail-contents :
      (q : Queue A) (m : ℕ)
      → q.used ≡ suc m
      → contents q
        ≡ get_or q.list q.first none
          ∷ contents (record q { first = next q.size q.first; used = q.used - 1 })
  tail-contents q m e =
      ap (window none q.list q.size q.first) e
      ∙ ap (λ n. get_or q.list q.first none ∷ window none q.list q.size (next q.size q.first) n)
          (omega arith)

  -- For a valid queue: `rbtQ_pop` leaves it valid; where `rbtQ_peek` gives no slot the queue is
  -- empty and `rbtQ_pop` changes nothing, and where it gives a slot, the elements are the one in that
  -- slot followed by those that `rbtQ_pop` leaves.
  pub pop-contents :
      (q : Queue A)
      → IsValid q
      → IsValid (pop q) × (elim (peek q) as (λ _. Type ℓ) [
        | none ↦ (contents q ≡ []) × (pop q ≡ q)
        | some i ↦ contents q ≡ get_or q.list i none ∷ contents (pop q)
      ])
  pop-contents q v = elim (zero_or_suc q.used) [
    | inl e ↦
        let (p, k) = pop-none q (
          at_last q.size q.first q.last q.used v.first_in v.spare v.last_at ∙ ap (λ n. n == 0) e) in
        (subst IsValid (sym p) v, rw k ((ap (window none q.list q.size q.first) e, p)))
    | inr (m, e) ↦
        let (p, k) =
          pop-some q
            (at_last q.size q.first q.last q.used v.first_in v.spare v.last_at ∙ ground arith) in
        (subst IsValid (sym p) (tail-IsValid q m v e), rw (k, p) (tail-contents q m e))
  ]

  pub pop-IsValid : (q : Queue A) → IsValid q → IsValid (pop q)
  pop-IsValid q v = (pop-contents q v).0

  -- A list without its first element.
  abbrev pub tail : List (Option A) → List (Option A)
  tail [] = []
  tail (x ∷ xs) = xs

  pub pop-tail : (q : Queue A) → IsValid q → contents (pop q) ≡ tail (contents q)
  pop-tail q v = elim (zero_or_suc q.used) [
    | inl e ↦
        let (p, k) = pop-none q (
          at_last q.size q.first q.last q.used v.first_in v.spare v.last_at ∙ ap (λ n. n == 0) e) in
        let c : contents q ≡ [] = ap (window none q.list q.size q.first) e in
        ap contents p ∙ c ∙ ap tail (sym c)
    | inr (m, e) ↦
        let (p, k) =
          pop-some q
            (at_last q.size q.first q.last q.used v.first_in v.spare v.last_at ∙ ground arith) in
        ap contents p ∙ ap tail (sym (tail-contents q m e))
  ]

  -- `rbtQ_init` makes a valid queue without elements, for any number of elements asked for.
  pub init-contents : (n : ℕ) → IsValid (init {A = A} n) × (contents (init {A = A} n) ≡ [])
  unfolding init
  init-contents n = (
    record {
      sized = length-replicate (max n 32) none;
      first_in = omega arith;
      spare = omega arith;
      last_at = ground arith;
    },
    refl,
  )

  -- `rbtQ_clear` leaves a valid queue valid and without elements.
  pub clear-contents : (q : Queue A) → IsValid q → IsValid (clear q) × (contents (clear q) ≡ [])
  unfolding clear
  clear-contents q v = (
    record { sized = v.sized; first_in = omega arith; spare = omega arith; last_at = ground arith },
    refl,
  )
