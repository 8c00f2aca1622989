-- ===== src/Downloader/Register.antt =====
-- What the registration of an indexer leaves in the filter.
use chain_indexor.Prelude.{
  elem, ℕ, zero, suc, Bool, true, ◌&&◌, ◌||◌, ◌≡◌, ◌≢◌, refl, sym, ap, ◌∙◌, List, [], ◌∷◌, ◌++◌,
  Option, none, some, arith, ◌==◌, ==_iff, any, any-append, length, length-append, Bool-cases,
  Option-cases, inl, inr,
}
use chain_indexor.Types.{Address, Hash}
use chain_indexor.LogStore.Storing.{listed}
use chain_indexor.Coordinator.{Indexer}
use chain_indexor.Downloader.{
  Downloader, next_index, index_of_address, add_new_topic, add_topics, add_topics_at,
  register_address, register_events, register,
}

elem-add_topics :
    (new ts : List Hash) (t : Hash) → elem t (add_topics new ts) ≡ (elem t ts || elem t new)
elem-add_topics [] ts t = ground arith
elem-add_topics (u ∷ new) ts t =
    rw (elem-add_topics new (add_new_topic u ts) t) (elim (Bool-cases (elem u ts)) [
      | inl e ↦
          ground (arith, λ (q : (u == t) ≡ true). sym (ap (λ n. elem n ts) ((==_iff u t).0 q)) ∙ e)
      | inr n ↦ ground (arith, any-append (λ v. v == t) ts (u ∷ []))
    ])

listed-append :
    (xs : List Address) (tss : List (List Hash)) (a : Address) (us : List Hash) (b t : ℕ)
    → length xs ≡ length tss
    → listed b t (xs ++ a ∷ []) (tss ++ us ∷ []) ≡ (listed b t xs tss || ((a == b) && elem t us))
listed-append [] [] a us b t h = ground arith
listed-append [] (ts ∷ tss) a us b t h = absurd (omega arith)
listed-append (x ∷ xs) [] a us b t h = absurd (omega arith)
listed-append (x ∷ xs) (ts ∷ tss) a us b t h =
    ground (arith, listed-append xs tss a us b t (omega arith))

next_index-zero : (o : Option ℕ) → next_index o ≢ some 0
next_index-zero none h = cc
next_index-zero (some n) h = cc

next_index-suc : (o : Option ℕ) (n : ℕ) → next_index o ≡ some (suc n) → o ≡ some n
next_index-suc none n h = cc
next_index-suc (some m) n h = cc

listed-add_topics_at :
    (xs : List Address) (tss : List (List Hash)) (a : Address) (new : List Hash) (n b t : ℕ)
    → length xs ≡ length tss
    → index_of_address a xs ≡ some n
    → (listed b t xs (add_topics_at n new tss) ≡ (listed b t xs tss || ((a == b) && elem t new)))
      × (length (add_topics_at n new tss) ≡ length tss)
unfolding index_of_address
listed-add_topics_at [] tss a new n b t h i = cc
listed-add_topics_at (x ∷ xs) [] a new n b t h i = absurd (omega arith)
listed-add_topics_at (x ∷ xs) (ts ∷ tss) a new zero b t h i = elim (Bool-cases (x == a)) [
  | inl e ↦ let q = (==_iff x a).0 e in (rw (elem-add_topics new ts t, q) (ground arith), refl)
  | inr d ↦ absurd (next_index-zero (index_of_address a xs) (rw d at i))
]
listed-add_topics_at (x ∷ xs) (ts ∷ tss) a new (suc n) b t h i = elim (Bool-cases (x == a)) [
  | inl e ↦ cc
  | inr d ↦
      let (l, m) =
        listed-add_topics_at xs tss a new n b t (omega arith)
          (next_index-suc (index_of_address a xs) n (rw d at i)) in
      (ground (arith, l), omega (arith, m))
]

-- The filter's addresses and topics stand side by side.
abbrev pub IsAligned : Downloader → Type 0
IsAligned d = length d.addresses ≡ length d.topics

listed-register_address :
    (start : ℕ) (a : Address) (new : List Hash) (d : Downloader) (b t : ℕ)
    → IsAligned d
    → (listed b t (register_address start a new d).addresses (register_address start a new d).topics
        ≡ (listed b t d.addresses d.topics || ((a == b) && elem t new)))
      × IsAligned (register_address start a new d)
unfolding register_address
listed-register_address start a new d b t h = elim (Option-cases (index_of_address a d.addresses)) [
  | inl n ↦ rw n (
    listed-append d.addresses d.topics a (add_topics new []) b t h
        ∙ rw (elem-add_topics new [] t) (ground arith),
    omega (
      arith,
      h,
      length-append d.addresses (a ∷ []),
      length-append d.topics (add_topics new [] ∷ []),
    ),
  )
  | inr (n, e) ↦
      let (l, m) = listed-add_topics_at d.addresses d.topics a new n b t h e in
      rw e (l, omega (arith, h, m))
]

-- A topic set holds the topic of the address.
abbrev pub asks : Address → Hash → List (Address × List Hash) → Bool
asks b t events = any (λ e. (e.0 == b) && elem t e.1) events

listed-register_events :
    (start : ℕ) (es : List (Address × List Hash)) (d : Downloader) (b t : ℕ)
    → IsAligned d
    → (listed b t (register_events start es d).addresses (register_events start es d).topics
        ≡ (listed b t d.addresses d.topics || asks b t es))
      × IsAligned (register_events start es d)
listed-register_events start [] d b t h = (ground arith, h)
listed-register_events start ((a, ts) ∷ es) d b t h =
    let (l, m) = listed-register_address start a ts d b t h in
    let (l', m') = listed-register_events start es (register_address start a ts d) b t m in
    (rw (l', l) (ground arith), m')

abbrev pub register_all : List Indexer → Downloader → Downloader
register_all [] d = d
register_all (ix ∷ ixs) d = register_all ixs (register ix d)

-- Registrations keep the addresses and topics of the filter side by side, and leave in it the
-- combinations of an address and a topic that were there and those of the indexers, and no other.
pub register_all-listed :
    (ixs : List Indexer) (d : Downloader) (b t : ℕ)
    → IsAligned d
    → IsAligned (register_all ixs d)
      × (listed b t (register_all ixs d).addresses (register_all ixs d).topics
          ≡ (listed b t d.addresses d.topics || any (λ ix. asks b t ix.events_to_index) ixs))
unfolding register
register_all-listed [] d b t h = (h, ground arith)
register_all-listed (ix ∷ ixs) d b t h =
    let (l, m) = listed-register_events ix.start_block ix.events_to_index d b t h in
    let (m', l') = register_all-listed ixs (register ix d) b t m in (m', rw (l', l) (ground arith))
