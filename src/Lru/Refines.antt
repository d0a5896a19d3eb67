-- ===== src/Lru/Refines.antt =====
-- The LRU of common/lru.h against its specification: a list of entries, most recently used first,
-- of which a read moves its entry to the front, and a write keeps the first `cap`.
use c_plus_plus_examples.Base.{
  ℕ, suc, ◌+◌, ◌≤◌, ◌<◌, ◌≡◌, refl, ap, ◌∙◌, inl, inr, none, some, List, [], ◌∷◌, arith, length,
  take, take_of_length-le, ltb, Option-cases, false, dec_lt, lt→ltb,
}
use c_plus_plus_examples.Base.Map.{
  find, erase, erase_absent, find-erase_self, find-erase_ne, erase-Distinct, length-erase,
}
use c_plus_plus_examples.Lru.{Node, Lru, init, node_at, unlink, splice_front, back, get, put, evict}
use c_plus_plus_examples.Lru.View.{
  entries, index, Apart, IsValid, Found, Found-index, index-find-none, node_at-unlink-none,
  node_at-unlink_self, index-unlink, unlink-Apart, length-unlink,
}
use c_plus_plus_examples.Lru.Evict.{
  entries-pop_back, length-pop_back, node_at-pop_back, index-back, index-pop_back, pop_back-Apart,
}
use mathlib.Core.Logic.{if_pos}

leb_of_le : (a b : ℕ) → a ≤ b → ltb b a ≡ false
leb_of_le a b h = ground arith

module _ {K V : Type 0} (dec : Discrete K) where
  -- The entry of `k` moved to the front, with the value `v`.
  abbrev pub touch : K → V → List (K × V) → List (K × V)
  touch k v es = (k, v) ∷ erase dec k es

  splice-IsValid :
      (c : Lru K V) (k : K) (i : ℕ) (f : Node K V → Node K V)
      → ((n : Node K V) → ((f n).id ≡ n.id) × ((f n).key ≡ n.key))
      → IsValid dec c
      → index dec k c.lru ≡ some i
      → IsValid dec (record c { lru = splice_front f i c.lru })
  unfolding splice_front node_at
  splice-IsValid c k i f same v h =
      let r : Found dec k c.lru i = Found-index dec k c.lru i v.apart h in
      rw (r.at, splice_front)
        (record {
          apart = (
            rw ((same r.node).0, r.id) (node_at-unlink_self dec i c.lru v.apart),
            rw (same r.node).1 (
                index-unlink dec i r.node.key c.lru r.node v.apart r.at
                ∙ if_pos (dec r.node.key r.node.key) refl none _),
            unlink-Apart dec i c.lru v.apart,
          );
          fresh = λ j hj.
              ground
                (arith, v.fresh j hj, node_at-unlink-none dec i j c.lru, same r.node, r.at, r.id);
          found = λ j. ground (
            arith,
            v.found j,
            index-unlink dec i j c.lru r.node v.apart r.at,
            same r.node,
            r.id,
            h,
            r.key,
          );
          distinct = v.distinct;
          same_size = ground (arith, length-unlink dec i c.lru r.node r.at);
          bounded = ground (arith, length-unlink dec i c.lru r.node r.at);
        })

  entries-splice :
      (l : List (Node K V)) (k : K) (i : ℕ) (f : Node K V → Node K V)
      → ((n : Node K V) → (f n).key ≡ n.key)
      → (r : Found dec k l i)
      → entries dec (splice_front f i l) ≡ touch k (f r.node).value (entries dec l)
  unfolding splice_front
  entries-splice l k i f same r = rw (r.at, splice_front) (rw (same r.node, r.key, r.rest))

  length-entries : (l : List (Node K V)) → length (entries dec l) ≡ length l
  length-entries [] = refl
  length-entries (n ∷ l) = ap suc (length-entries l)

  -- `Put` of a key that is there.
  put_hit :
      (c : Lru K V) (k : K) (val : V) (i : ℕ)
      → IsValid dec c
      → index dec k c.lru ≡ some i
      → (entries dec (put dec c k val).lru ≡ take c.cap (touch k val (entries dec c.lru)))
        × IsValid dec (put dec c k val)
  unfolding put
  put_hit c k val i v hit =
      let r : Found dec k c.lru i = Found-index dec k c.lru i v.apart hit in
      let f : Node K V → Node K V = λ n. record n { value = val } in
      let small : length (touch k val (entries dec c.lru)) ≤ c.cap = rw (← r.rest) (
        omega (
          arith,
          v.bounded,
          length-entries (unlink i c.lru),
          length-unlink dec i c.lru r.node r.at,
        )) in
      rw (v.found k ∙ hit, put, take_of_length-le c.cap _ small)
        (entries-splice c.lru k i f (λ n. refl) r, splice-IsValid c k i f (λ n. (refl, refl)) v hit)

  -- The state of `Put` behind the two insertions, for a key that is not there: valid, but for the
  -- bound.
  abbrev added : Lru K V → K → V → Lru K V
  added c k val = record c {
    lru = record { id = c.next; key = k; value = val } ∷ c.lru;
    kvs = (k, c.next) ∷ c.kvs;
    next = c.next + 1;
  }

  evict_fits :
      (c : Lru K V) (k : K) (val : V)
      → IsValid dec c
      → index dec k c.lru ≡ none
      → length c.lru < c.cap
      → (entries dec (evict dec (added c k val)).lru ≡ take c.cap (touch k val (entries dec c.lru)))
        × IsValid dec (evict dec (added c k val))
  unfolding evict node_at find
  evict_fits c k val v miss h =
      let es : List (K × V) = (k, val) ∷ entries dec c.lru in
      rw
        (
          leb_of_le (suc (length c.kvs)) c.cap (omega (arith, v.same_size)),
          evict,
          erase_absent dec k (entries dec c.lru) (index-find-none dec k c.lru miss),
          take_of_length-le c.cap es (omega (arith, length-entries c.lru)),
        )
        (
          refl,
          record {
            apart = (v.fresh c.next (omega arith), miss, v.apart);
            fresh = λ j hj. ground (arith, v.fresh j);
            found = λ j. ground (arith, v.found j);
            distinct = (v.found k ∙ miss, v.distinct);
            same_size = ap suc v.same_size;
            bounded = h;
          },
        )

  evict_full :
      (c : Lru K V) (k : K) (val : V)
      → IsValid dec c
      → index dec k c.lru ≡ none
      → length c.lru ≡ c.cap
      → (entries dec (evict dec (added c k val)).lru ≡ take c.cap (touch k val (entries dec c.lru)))
        × IsValid dec (evict dec (added c k val))
  unfolding evict node_at find
  evict_full c k val v miss h =
      let n : Node K V = record { id = c.next; key = k; value = val } in
      let apart : Apart dec (n ∷ c.lru) = (v.fresh c.next (omega arith), miss, v.apart) in
      let (i, last) = index-back dec n c.lru in
      let found : (j : K) → find dec j ((k, c.next) ∷ c.kvs) ≡ index dec j (n ∷ c.lru) =
        λ j. ground (arith, v.found j) in
      let here : find dec (back n c.lru).key ((k, c.next) ∷ c.kvs) ≡ some i =
        found (back n c.lru).key ∙ last in
      rw
        (
          lt→ltb c.cap (suc (length c.kvs)) (omega (arith, v.same_size)),
          evict,
          erase_absent dec k (entries dec c.lru) (index-find-none dec k c.lru miss),
          ← h,
        )
        (
          entries-pop_back dec n c.lru,
          record {
            apart = pop_back-Apart dec n c.lru apart;
            fresh = λ j hj. node_at-pop_back dec j n c.lru (ground (arith, v.fresh j));
            found = λ j. ground (
              arith,
              found j,
              index-pop_back dec j n c.lru apart,
              find-erase_ne dec (back n c.lru).key j ((k, c.next) ∷ c.kvs),
              find-erase_self dec (back n c.lru).key ((k, c.next) ∷ c.kvs),
            );
            distinct = erase-Distinct dec _ ((k, c.next) ∷ c.kvs) (v.found k ∙ miss, v.distinct);
            same_size = omega (
              arith,
              v.same_size,
              length-pop_back dec n c.lru,
              length-erase dec _ ((k, c.next) ∷ c.kvs) i (v.found k ∙ miss, v.distinct) here,
            );
            bounded = omega (arith, length-pop_back dec n c.lru);
          },
        )

  put_miss :
      (c : Lru K V) (k : K) (val : V)
      → IsValid dec c
      → index dec k c.lru ≡ none
      → (entries dec (put dec c k val).lru ≡ take c.cap (touch k val (entries dec c.lru)))
        × IsValid dec (put dec c k val)
  unfolding put
  put_miss c k val v miss =
      rw (v.found k ∙ miss, put)
        (elim (dec_lt (length c.lru) c.cap) [
          | yes room ↦ evict_fits c k val v miss room
          | no full ↦ evict_full c k val v miss (omega (arith, v.bounded))
        ])

  -- `Get` returns the value of the key in the entries, or false if there is none. A hit moves the
  -- entry to the front and changes no other; a miss changes nothing. The invariant is kept.
  pub get_refines :
      (c : Lru K V) (k : K)
      → IsValid dec c
      → ((get dec c k).1 ≡ find dec k (entries dec c.lru))
        × (entries dec (get dec c k).0.lru ≡ elim (find dec k (entries dec c.lru)) [
          | none ↦ entries dec c.lru
          | some v ↦ touch k v (entries dec c.lru)
        ])
        × IsValid dec (get dec c k).0
  unfolding get
  get_refines c k v = elim (Option-cases (index dec k c.lru)) [
    | inl miss ↦
        let none_found : find dec k c.kvs ≡ none = v.found k ∙ miss in
        rw (none_found, get, index-find-none dec k c.lru miss) (refl, refl, v)
    | inr (i, hit) ↦
        let r : Found dec k c.lru i = Found-index dec k c.lru i v.apart hit in
        let kept : IsValid dec (record c { lru = splice_front (λ m. m) i c.lru }) =
          splice-IsValid c k i (λ m. m) (λ n. (refl, refl)) v hit in
        rw (v.found k ∙ hit, get, r.at, r.value)
          (refl, entries-splice c.lru k i (λ m. m) (λ n. refl) r, kept)
  ]

  -- `Put` makes the entry the first, in place of an older one of the same key, and keeps the first
  -- `cap` entries: what is evicted is the least recently used. The invariant is kept.
  pub put_refines :
      (c : Lru K V) (k : K) (val : V)
      → IsValid dec c
      → (entries dec (put dec c k val).lru ≡ take c.cap (touch k val (entries dec c.lru)))
        × IsValid dec (put dec c k val)
  put_refines c k val v = elim (Option-cases (index dec k c.lru)) [
    | inl miss ↦ put_miss c k val v miss
    | inr (i, hit) ↦ put_hit c k val i v hit
  ]

  -- A new LRU is valid and holds nothing.
  pub init-IsValid : (cap : ℕ) → IsValid dec (init {V = V} cap)
  unfolding init node_at find
  init-IsValid cap = record {
    apart = tt;
    fresh = λ i h. refl;
    found = λ k. refl;
    distinct = tt;
    same_size = refl;
    bounded = omega arith;
  }
