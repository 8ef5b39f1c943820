-- ===== src/Witnesses/Json.antt =====
-- A lawful stand-in for the JSON of the CRDT payloads: maps as their entries, each key behind its
-- length.
use grumpydb.Prelude.{
  ℕ, zero, suc, ◌^◌, ◌<◌, ◌≡◌, refl, ap, arith, Bool, true, false, inl, inr, Bool-cases, Option,
  none, some, [], ◌∷◌, ◌++◌, append_assoc, append-nil, Result, ok, err, ltb, if◌then◌else◌, length,
  length-append, take, drop, take-append, drop-append,
}
use mathlib.Core.Path.{subst}
use grumpydb.Prelude.Bytes.{Bytes}
use grumpydb.Prelude.Order.{Ordering, bytes_ord, cmp_bytes}
use grumpydb.Prelude.Map.{Map, Above}
use grumpydb.Prelude.Map.Union.{IsMap}
use grumpydb.Document.Crdt.{Json, TextSet, LwwSetPayload, OrSetPayload, MvrPayload}
use grumpydb.Document.Crdt.Merge.{IsLawful}
use grumpydb.Document.Crdt.Joins.{IsU64, IsTextSet, IsLwwSet, IsOrSet, IsMvr}

pub record Code {V : Type 0} (Good : V → Type 0) : Type 0 where
  pub enc : V → Bytes
  pub dec : Bytes → Option (V × Bytes)
  pub sound : (b : Bytes) (v : V) (r : Bytes) → dec b ≡ some (v, r) → Good v
  pub back : (v : V) (r : Bytes) → Good v → dec (enc v ++ r) ≡ some (v, r)

abbrev dec_u64 : Bytes → Option (ℕ × Bytes)
dec_u64 [] = none
dec_u64 (n ∷ r) = if ltb n (2 ^ 64) then some (n, r) else none

u64_code : Code IsU64
u64_code = record {
  enc = λ n. n ∷ [];
  dec = dec_u64;
  sound = λ b v r e. sound b v r e;
  back = λ v r g. ground (arith, g);
}
  where
    sound : (b : Bytes) (v : ℕ) (r : Bytes) → dec_u64 b ≡ some (v, r) → IsU64 v
    sound [] v r e = cc
    sound (n ∷ b) v r e = ground arith

abbrev above_test : {V : Type 0} → Bytes → Map Bytes V → Bool
above_test k [] = true
above_test k ((j, v) ∷ m) = elim (cmp_bytes k j) [ Ordering.lt ↦ above_test k m | _ ↦ false ]

module _ {V : Type 0} where
  Above-sound : (k : Bytes) (m : Map Bytes V) → above_test k m ≡ true → Above k m
  Above-sound k [] h = tt
  Above-sound k ((j, v) ∷ m) h = (ground (arith, h), Above-sound k m (ground (arith, h)))

  Above-back : (k : Bytes) (m : Map Bytes V) → Above k m → above_test k m ≡ true
  Above-back k [] h = refl
  Above-back k ((j, v) ∷ m) h = rw (h.0, above_test) (Above-back k m h.1)

module _ {V : Type 0} {Good : V → Type 0} (c : Code Good) where
  enc_map : Map Bytes V → Bytes
  enc_map [] = 0 ∷ []
  enc_map ((k, v) ∷ m) = suc (length k) ∷ (k ++ (c.enc v ++ enc_map m))

  abbrev entry : Bytes → V → Option (Map Bytes V × Bytes) → Option (Map Bytes V × Bytes)
  entry k v none = none
  entry k v (some (m, r)) = if above_test k m then some ((k, v) ∷ m, r) else none

  abbrev with_value :
      Option (V × Bytes)
      → Bytes
      → (Bytes → Option (Map Bytes V × Bytes))
      → Option (Map Bytes V × Bytes)
  with_value none k rest = none
  with_value (some (v, r)) k rest = entry k v (rest r)

  dec_map : ℕ → Bytes → Option (Map Bytes V × Bytes)
  dec_map zero b = none
  dec_map (suc fuel) [] = none
  dec_map (suc fuel) (zero ∷ r) = some ([], r)
  dec_map (suc fuel) (suc n ∷ r) = with_value (c.dec (drop n r)) (take n r) (λ b. dec_map fuel b)

  entry_sound :
      (k : Bytes) (v : V) (o : Option (Map Bytes V × Bytes)) (m : Map Bytes V) (r : Bytes)
      → Good v
      → ((n : Map Bytes V) (s : Bytes) → o ≡ some (n, s) → IsMap Good n)
      → entry k v o ≡ some (m, r)
      → IsMap Good m
  entry_sound k v none m r g h e = cc
  entry_sound k v (some (n, s)) m r g h e = elim (Bool-cases (above_test k n)) [
    | inl up ↦
        let same : some ((k, v) ∷ n, s) ≡ some (m, r) = rw up at e in
        let is : (k, v) ∷ n ≡ m = cc in
        let rest = h n s refl in subst (IsMap Good) is ((Above-sound k n up, rest.0), (g, rest.1))
    | inr down ↦ let no_map : none ≡ some (m, r) = rw down at e in cc
  ]

  with_value_sound :
      (o : Option (V × Bytes)) (k : Bytes) (rest : Bytes → Option (Map Bytes V × Bytes))
      (m : Map Bytes V) (r : Bytes)
      → ((v : V) (s : Bytes) → o ≡ some (v, s) → Good v)
      → ((b : Bytes) (n : Map Bytes V) (s : Bytes) → rest b ≡ some (n, s) → IsMap Good n)
      → with_value o k rest ≡ some (m, r)
      → IsMap Good m
  with_value_sound none k rest m r g h e = cc
  with_value_sound (some (v, s)) k rest m r g h e =
      entry_sound k v (rest s) m r (g v s refl) (h s) e

  map_sound :
      (fuel : ℕ) (b : Bytes) (m : Map Bytes V) (r : Bytes)
      → dec_map fuel b ≡ some (m, r)
      → IsMap Good m
  unfolding dec_map
  map_sound zero b m r e = cc
  map_sound (suc fuel) [] m r e = cc
  map_sound (suc fuel) (zero ∷ s) m r e = let is : [] ≡ m = cc in subst (IsMap Good) is (tt, tt)
  map_sound (suc fuel) (suc n ∷ s) m r e =
      with_value_sound (c.dec (drop n s)) (take n s) (dec_map fuel) m r (c.sound (drop n s))
        (map_sound fuel) e

  map_back :
      (fuel : ℕ) (m : Map Bytes V) (r : Bytes)
      → length m < fuel
      → IsMap Good m
      → dec_map fuel (enc_map m ++ r) ≡ some (m, r)
  unfolding dec_map enc_map
  map_back zero m r h g = absurd (omega arith)
  map_back (suc fuel) [] r h g = refl
  map_back (suc fuel) ((k, v) ∷ m) r h g =
      let more = c.enc v ++ (enc_map m ++ r) in
      let shape : (k ++ (c.enc v ++ enc_map m)) ++ r ≡ k ++ more = simp append_assoc in
      let rest = map_back fuel m r (omega arith) (g.0.1, g.1.1) in
      rw shape (
        rw (take-append k more, drop-append k more)
          (rw (c.back v (enc_map m ++ r) g.1.0) (rw rest (rw (Above-back k m g.0.0) refl))))

  enc_map_long : (m : Map Bytes V) → length m < length (enc_map m)
  unfolding enc_map
  enc_map_long [] = omega arith
  enc_map_long ((k, v) ∷ m) = omega (
    arith,
    enc_map_long m,
    length-append k (c.enc v ++ enc_map m),
    length-append (c.enc v) (enc_map m),
  )

  entries_code : Code (IsMap {K = Bytes} Good)
  entries_code = record {
    enc = enc_map;
    dec = λ b. dec_map (suc (length b)) b;
    sound = λ b m r e. map_sound (suc (length b)) b m r e;
    back = λ m r g.
        map_back (suc (length (enc_map m ++ r))) m r
          (omega (arith, enc_map_long m, length-append (enc_map m) r)) g;
  }

abbrev Any : Unit {0} → Type 0
Any a = Unit {0}

unit_code : Code Any
unit_code = record {
  enc = λ a. [];
  dec = λ b. some (tt, b);
  sound = λ b v r e. tt;
  back = λ v r g. refl;
}

pub texts_code : Code IsTextSet
texts_code = entries_code unit_code

pub nat_code : Code (λ (n : ℕ). Unit {0})
nat_code = record { enc = λ n. n ∷ []; dec = dec_nat; sound = λ b v r e. tt; back = λ v r g. refl }
  where
    dec_nat : Bytes → Option (ℕ × Bytes)
    dec_nat [] = none
    dec_nat (n ∷ r) = some (n, r)

pub bytes_code : Code (λ (b : Bytes). Unit {0})
bytes_code = record {
  enc = λ k. length k ∷ k;
  dec = dec_bytes;
  sound = λ b v r e. tt;
  back = λ k r g. rw (take-append k r, drop-append k r) refl;
}
  where
    dec_bytes : Bytes → Option (Bytes × Bytes)
    dec_bytes [] = none
    dec_bytes (n ∷ r) = some (take n r, drop n r)

-- The whole text is a value.
abbrev pub whole : {V : Type 0} → Option (V × Bytes) → Option V
whole none = none
whole (some (v, [])) = some v
whole (some (v, b ∷ r)) = none

module _ {V : Type 0} {Good : V → Type 0} (c : Code Good) where
  whole_sound : (b : Bytes) (v : V) → whole (c.dec b) ≡ some v → Good v
  whole_sound b v e = go (c.dec b) (c.sound b) e
    where
      go :
          (o : Option (V × Bytes))
          → ((w : V) (r : Bytes) → o ≡ some (w, r) → Good w)
          → whole o ≡ some v
          → Good v
      go none g e = cc
      go (some (w, [])) g e = g v [] (cc)
      go (some (w, b ∷ r)) g e = cc

  pub whole_back : (v : V) → Good v → whole (c.dec (c.enc v)) ≡ some v
  whole_back v g = rw (← append-nil (c.enc v)) (rw (c.back v [] g) refl)

module _ {V W : Type 0} {Good : V → Type 0} {Fine : W → Type 0} (c : Code Good)
    (d : Code Fine) where
  abbrev first : V → Option (W × Bytes) → Option ((V × W) × Bytes)
  first v none = none
  first v (some (w, r)) = some ((v, w), r)

  abbrev then_second : Option (V × Bytes) → Option ((V × W) × Bytes)
  then_second none = none
  then_second (some (v, r)) = first v (d.dec r)

  pub pair_code : Code (λ (p : V × W). Good p.0 × Fine p.1)
  pair_code = record {
    enc = λ p. c.enc p.0 ++ d.enc p.1;
    dec = λ b. then_second (c.dec b);
    sound = λ b p r e. go (c.dec b) p r (c.sound b) e;
    back = λ p r g.
        rw (append_assoc (c.enc p.0) (d.enc p.1) r)
          (rw (c.back p.0 (d.enc p.1 ++ r) g.0) (rw (d.back p.1 r g.1) refl));
  }
    where
      more :
          (v : V) (o : Option (W × Bytes)) (p : V × W) (r : Bytes)
          → Good v
          → ((w : W) (t : Bytes) → o ≡ some (w, t) → Fine w)
          → first v o ≡ some (p, r)
          → Good p.0 × Fine p.1
      more v none p r g f e = cc
      more v (some (w, t)) p r g f e = (subst Good (cc) g, subst Fine (cc) (f w t refl))

      go :
          (o : Option (V × Bytes)) (p : V × W) (r : Bytes)
          → ((v : V) (s : Bytes) → o ≡ some (v, s) → Good v)
          → then_second o ≡ some (p, r)
          → Good p.0 × Fine p.1
      go none p r g e = cc
      go (some (v, s)) p r g e = more v (d.dec s) p r (g v s refl) (d.sound s) e

abbrev pub made_or_err : {P V : Type 0} → (V → P) → Option V → Result P Bytes
made_or_err make none = err []
made_or_err make (some v) = ok (make v)

abbrev pub json_of : {P V : Type 0} {Good : V → Type 0} → Code Good → (V → P) → (P → V) → Json P
json_of c make parts = record {
  from_slice = λ b. made_or_err make (whole (c.dec b));
  to_vec = λ p. ok (c.enc (parts p));
}

module _ {P V : Type 0} {Good : V → Type 0} (IsP : P → Type 0) (c : Code Good) (make : V → P)
    (parts : P → V) (made : (v : V) → Good v → IsP (make v))
    (part : (p : P) → IsP p → Good (parts p)) (same : (p : P) → make (parts p) ≡ p) where
  json_of-IsLawful : IsLawful IsP (json_of c make parts)
  json_of-IsLawful = record {
    sound = λ b p e. go (whole (c.dec b)) p (whole_sound c b) e;
    back = λ p g. (c.enc (parts p), refl, rw (whole_back c (parts p) (part p g)) (ap ok (same p)));
  }
    where
      go :
          (o : Option V) (p : P)
          → ((v : V) → o ≡ some v → Good v)
          → made_or_err make o ≡ ok p
          → IsP p
      go none p g e = cc
      go (some v) p g e = subst IsP (cc) (made v (g v refl))

pub lww_code : Code (λ (p : Map Bytes ℕ × Map Bytes ℕ). IsMap IsU64 p.0 × IsMap IsU64 p.1)
lww_code = pair_code (entries_code u64_code) (entries_code u64_code)

pub or_code :
    Code (λ (p : Map Bytes TextSet × Map Bytes TextSet). IsMap IsTextSet p.0 × IsMap IsTextSet p.1)
or_code = pair_code (entries_code texts_code) (entries_code texts_code)

abbrev pub lww_json : Json LwwSetPayload
lww_json = json_of lww_code (λ p. record { adds = p.0; rems = p.1 }) (λ p. (p.adds, p.rems))

abbrev pub or_json : Json OrSetPayload
or_json = json_of or_code (λ p. record { adds = p.0; rems = p.1 }) (λ p. (p.adds, p.rems))

abbrev pub mvr_json : Json MvrPayload
mvr_json = json_of texts_code (λ s. record { values = s }) (λ p. p.values)

pub lww_json-IsLawful : IsLawful IsLwwSet lww_json
lww_json-IsLawful =
    json_of-IsLawful IsLwwSet lww_code (λ p. record { adds = p.0; rems = p.1 })
      (λ p. (p.adds, p.rems)) (λ v g. g) (λ p g. g) (λ p. refl)

pub or_json-IsLawful : IsLawful IsOrSet or_json
or_json-IsLawful =
    json_of-IsLawful IsOrSet or_code (λ p. record { adds = p.0; rems = p.1 })
      (λ p. (p.adds, p.rems)) (λ v g. g) (λ p g. g) (λ p. refl)

pub mvr_json-IsLawful : IsLawful IsMvr mvr_json
mvr_json-IsLawful =
    json_of-IsLawful IsMvr texts_code (λ s. record { values = s }) (λ p. p.values) (λ v g. g)
      (λ p g. g) (λ p. refl)
