-- ===== src/Ring/Walk.antt =====
-- The walk of `preference_list` of grumpydb-ring/src/ring.rs, as a choice from the owners in ring order.
use grumpydb.Prelude.{
  ℕ, zero, suc, ◌+◌, ◌-◌, ◌%◌, ◌^◌, ◌<◌, ◌≤◌, ◌≡◌, refl, sym, ap, ◌∙◌, arith, min, true, false, inl,
  inr, Bool-cases, ◌||◌, some, List, [], ◌∷◌, ◌++◌, append_assoc, append-nil, ltb, ltb→lt, ltb→ge,
  ◌==◌, ==→eq, if◌then◌else◌, length, length-append, length-drop, get_elem?, take, drop,
}
use grumpydb.Prelude.Bytes.{Bytes}
use grumpydb.Prelude.Members.{contains}
use native.Mathlib.Nat.{mod-eq_of_lt, mod-add-mod, mod-eq-sub-mod, mod-lt}
use grumpydb.Ring.{
  Ring, RoutingKey, Vnode, owners, canonical_bytes, walk, murmur3_hash, preference_list,
}

-- The vnodes from an index on, once round.
abbrev pub rotation : ℕ → List Vnode → List Vnode
rotation i vs = drop i vs ++ take i vs

-- The elements that are not in `seen`, each where it stands first.
unfoldable pub first_seen : List ℕ → List ℕ → List ℕ
first_seen seen [] = []
first_seen seen (x ∷ xs) =
    if contains x seen then first_seen seen xs else x ∷ first_seen (x ∷ seen) xs

module _ {A : Type 0} where
  get_elem?-append :
      (i : ℕ) (xs ys : List A) → get_elem? (xs ++ ys) (length xs + i) ≡ get_elem? ys i
  get_elem?-append i [] ys = ap (get_elem? ys) (omega arith)
  get_elem?-append i (x ∷ xs) ys =
      ap (get_elem? (x ∷ (xs ++ ys))) {x = length (x ∷ xs) + i} {y = suc (length xs + i)}
        (omega arith)
      ∙ get_elem?-append i xs ys

  get_elem?-append_left :
      (i : ℕ) (xs ys : List A) → i < length xs → get_elem? (xs ++ ys) i ≡ get_elem? xs i
  get_elem?-append_left i [] ys h = absurd (omega arith)
  get_elem?-append_left zero (x ∷ xs) ys h = refl
  get_elem?-append_left (suc i) (x ∷ xs) ys h = get_elem?-append_left i xs ys (omega arith)

  get_elem?-drop : (k i : ℕ) (xs : List A) → get_elem? (drop k xs) i ≡ get_elem? xs (k + i)
  get_elem?-drop zero i xs = ap (get_elem? xs) (omega arith)
  get_elem?-drop (suc k) i [] = refl
  get_elem?-drop (suc k) i (x ∷ xs) =
      get_elem?-drop k i xs
      ∙ ap (get_elem? (x ∷ xs)) {x = suc (k + i)} {y = suc k + i} (omega arith)

  get_elem?-take : (k i : ℕ) (xs : List A) → i < k → get_elem? (take k xs) i ≡ get_elem? xs i
  get_elem?-take zero i xs h = absurd (omega arith)
  get_elem?-take (suc k) i [] h = refl
  get_elem?-take (suc k) zero (x ∷ xs) h = refl
  get_elem?-take (suc k) (suc i) (x ∷ xs) h = get_elem?-take k i xs (omega arith)

  some_inj : {a b : A} → some a ≡ some b → a ≡ b
  some_inj e = cc

  tail_inj : {a : A} {xs ys : List A} → a ∷ xs ≡ a ∷ ys → xs ≡ ys
  tail_inj e = cc

  take_nil : (n : ℕ) → ◌≡◌ {A = List A} (take n []) []
  take_nil zero = refl
  take_nil (suc n) = refl

  drop-get_elem? :
      (i : ℕ) (xs : List A) (x : A) → get_elem? xs i ≡ some x → drop i xs ≡ x ∷ drop (i + 1) xs
  drop-get_elem? i [] x e = cc
  drop-get_elem? zero (y ∷ ys) x e = ap (λ (o : A). o ∷ ys) (some_inj e)
  drop-get_elem? (suc i) (y ∷ ys) x e =
      drop-get_elem? i ys x e
      ∙ ap (λ (n : ℕ). x ∷ drop n (y ∷ ys)) {x = suc (i + 1)} {y = suc i + 1} (omega arith)

-- The index that a step of the walk visits.
rotation_at :
    (start step : ℕ) (vs : List Vnode)
    → step < length vs
    → get_elem? vs ((start + step) % length vs) ≡ get_elem? (rotation (start % length vs) vs) step
rotation_at start step vs h =
    let t = length vs in
    let s = start % t in
    let inside : s < t = mod-lt start (omega arith) in
    let moved : (start + step) % t ≡ (s + step) % t = sym (mod-add-mod start t step) in
    let front : length (drop s vs) ≡ t - s = length-drop s vs in
    elim (Bool-cases (ltb (s + step) t)) [
      | inl low ↦
          let below : s + step < t = ltb→lt (s + step) t low in
          ap (get_elem? vs) (moved ∙ mod-eq_of_lt below)
          ∙ sym (
              get_elem?-append_left step (drop s vs) (take s vs) (omega (arith, front))
              ∙ get_elem?-drop s step vs)
      | inr high ↦
          let past : t ≤ s + step = ltb→ge (s + step) t high in
          let i = s + step - t in
          let wrapped : (s + step) % t ≡ i = mod-eq-sub-mod past ∙ mod-eq_of_lt (omega arith) in
          let index : step ≡ length (drop s vs) + i = omega (arith, front) in
          ap (get_elem? vs) (moved ∙ wrapped)
          ∙ sym (
              ap (get_elem? (rotation s vs)) index
              ∙ get_elem?-append i (drop s vs) (take s vs)
              ∙ get_elem?-take s i vs (omega arith))
    ]

-- The walk on the list of the owners that it visits.
unfoldable walk_list : ℕ → List Vnode → List ℕ → List ℕ → List ℕ
walk_list n [] seen out = out
walk_list n ((pos, owner) ∷ vs) seen out = elim (contains owner seen) [
  | true ↦ walk_list n vs seen out
  | false ↦ elim (length (out ++ owner ∷ []) == n) [
    | true ↦ out ++ owner ∷ []
    | false ↦ walk_list n vs (owner ∷ seen) (out ++ owner ∷ [])
  ]
]

walk_step :
    (n : ℕ) (vs : List Vnode) (start left step : ℕ) (seen out : List ℕ) (pos owner : ℕ)
    (more : List Vnode)
    → get_elem? vs ((start + step) % length vs) ≡ some (pos, owner)
    → ((s o : List ℕ) → walk n vs start left (step + 1) s o ≡ walk_list n more s o)
    → walk n vs start (suc left) step seen out ≡ walk_list n ((pos, owner) ∷ more) seen out
unfolding walk walk_list
walk_step n vs start left step seen out pos owner more e rest =
    rw (e, walk) (ground (arith, rest seen out, rest (owner ∷ seen) (out ++ owner ∷ [])))

walk-walk_list :
    (n : ℕ) (vs : List Vnode) (start left step : ℕ) (seen out : List ℕ) (more : List Vnode)
    → drop step (rotation (start % length vs) vs) ≡ more
    → length more ≡ left
    → step + left ≡ length vs
    → walk n vs start left step seen out ≡ walk_list n more seen out
unfolding walk walk_list
walk-walk_list n vs start zero step seen out [] e f h = refl
walk-walk_list n vs start zero step seen out (v ∷ more) e f h = absurd (omega arith)
walk-walk_list n vs start (suc left) step seen out [] e f h = absurd (omega arith)
walk-walk_list n vs start (suc left) step seen out ((pos, owner) ∷ more) e f h =
    let r = rotation (start % length vs) vs in
    let head : get_elem? r step ≡ some (pos, owner) =
      ap (get_elem? r) {x = step} {y = step + 0} (omega arith)
      ∙ sym (get_elem?-drop step 0 r)
      ∙ ap (λ (l : List Vnode). get_elem? l 0) e in
    let tail : drop (step + 1) r ≡ more =
      tail_inj (sym (drop-get_elem? step r (pos, owner) head) ∙ e) in
    walk_step n vs start left step seen out pos owner more
      (rotation_at start step vs (omega arith) ∙ head)
      (λ s o. walk-walk_list n vs start left (step + 1) s o more tail (omega arith) (omega arith))

walk_list-first_seen :
    (n : ℕ) (vs : List Vnode) (seen out : List ℕ)
    → length out < n
    → walk_list n vs seen out ≡ out ++ take (n - length out) (first_seen seen (owners vs))
unfolding walk_list first_seen
walk_list-first_seen n [] seen out h =
    sym (ap (◌++◌ out) (take_nil (n - length out)) ∙ append-nil out)
walk_list-first_seen n ((pos, owner) ∷ vs) seen out h = elim (Bool-cases (contains owner seen)) [
  | inl old ↦ rw (old, walk_list, first_seen) (walk_list-first_seen n vs seen out h)
  | inr new ↦
      let longer : length (out ++ owner ∷ []) ≡ length out + 1 = length-append out (owner ∷ []) in
      elim (Bool-cases (length (out ++ owner ∷ []) == n)) [
        | inl full ↦
            let one : n - length out ≡ 1 =
              omega (arith, longer, ==→eq (length (out ++ owner ∷ [])) n full) in
            rw (new, walk_list, first_seen) (rw (full, one) refl)
        | inr room ↦
            let short : length (out ++ owner ∷ []) < n = ground (arith, longer) in
            let more : n - length out ≡ suc (n - length (out ++ owner ∷ [])) =
              omega (arith, longer, short) in
            rw (new, walk_list, first_seen)
              (rw (room, more)
                (walk_list-first_seen n vs (owner ∷ seen) (out ++ owner ∷ []) short
                  ∙ append_assoc out (owner ∷ []) (
                      take (n - length (out ++ owner ∷ []))
                        (first_seen (owner ∷ seen) (owners vs)))))
      ]
]

length-rotation : (i : ℕ) (vs : List Vnode) → length (rotation i vs) ≡ length vs
length-rotation zero vs = ap length (append-nil vs)
length-rotation (suc i) [] = refl
length-rotation (suc i) (v ∷ vs) =
    length-append (drop i vs) (v ∷ take i vs)
    ∙ omega (arith, length-append (drop i vs) (take i vs), length-rotation i vs)

-- `preference_list` is the first `n` different owners, or all the nodes' number of them if that is
-- less, in the order of the vnodes from the one that the search finds on, once round the ring.
pub preference_list-take :
    (murmur3 : Bytes → ℕ) (tag : ℕ → ℕ → Bytes) (search_vnode : List Vnode → Vnode → ℕ)
    (search_position : List Vnode → ℕ → ℕ) (search_node : List ℕ → ℕ → ℕ) (r : Ring)
    (key : RoutingKey) (n : ℕ)
    → preference_list murmur3 tag search_vnode search_position search_node r key n
      ≡ take (min n (length r.physical_nodes)) (
          first_seen [] (
            owners (
              rotation
                (search_position r.vnodes (murmur3 (canonical_bytes key) % 2 ^ 64)
                  % length r.vnodes)
                r.vnodes)))
preference_list-take murmur3 tag search_vnode search_position search_node r key n =
    let start = search_position r.vnodes (murmur3 (canonical_bytes key) % 2 ^ 64) in
    let m = min n (length r.physical_nodes) in
    let round : List Vnode = rotation (start % length r.vnodes) r.vnodes in
    elim (Bool-cases (length r.physical_nodes == 0 || n == 0)) [
      | inl empty ↦
          let nothing : m ≡ 0 = ground (arith, empty) in
          unfold preference_list in rw (empty, nothing) refl
      | inr some_wanted ↦
          let wanted : 0 < m = ground (arith, some_wanted) in
          let walked : walk m r.vnodes start (length r.vnodes) 0 [] []
              ≡ take m (first_seen [] (owners round)) =
            walk-walk_list m r.vnodes start (length r.vnodes) 0 [] [] round refl
              (length-rotation (start % length r.vnodes) r.vnodes) (omega arith)
            ∙ walk_list-first_seen m round [] [] wanted
            ∙ ap (λ (k : ℕ). take k (first_seen [] (owners round))) (omega arith) in
          unfold preference_list murmur3_hash in rw some_wanted walked
    ]
