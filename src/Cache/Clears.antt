-- ===== src/Cache/Clears.antt =====
-- src/modules/cache.c: cache_clear, with the pointers that it frees, in their order.
use mathlib.Core.List.{append_assoc}
use asteron.Prelude.{
  ℕ, zero, suc, ◌+◌, ◌<◌, ◌≡◌, refl, ap, ◌∙◌, sym, Option, none, some, List, [], ◌∷◌, ◌++◌, arith,
  length, get_elem?, get_elem?-lt,
}
use asteron.Cache.Types.{ModuleCache}
use asteron.Cache.Store.{next_of, next_in}
use asteron.Cache.Calls.{free_entry}
use asteron.Cache.Uses.{IsLinked, IsLru}

-- The walk over a chain, which reads `next` and frees the entry. The store keeps freed entries, so the
-- walk is that of the code up to the first entry that is freed a second time.
unfoldable pub chain_from : ℕ → ModuleCache → Option ℕ → List ℕ
chain_from zero c o = []
chain_from (suc fuel) c none = []
chain_from (suc fuel) c (some p) = p ∷ chain_from fuel c (next_of c p)

unfoldable pub clear_chains : ModuleCache → List (Option ℕ) → List ℕ
clear_chains c [] = []
clear_chains c (b ∷ bs) = chain_from (length c.store + 1) c b ++ clear_chains c bs

abbrev pub no_heads : List (Option ℕ) → List (Option ℕ)
no_heads [] = []
no_heads (b ∷ bs) = none ∷ no_heads bs

abbrev pub free_all : List ℕ → ModuleCache → ModuleCache
free_all [] c = c
free_all (p ∷ ps) c = free_all ps (free_entry (get_elem? c.store p) c)

unfoldable pub cache_clear : ModuleCache → ModuleCache × List ℕ
cache_clear c =
    let freed = clear_chains c c.buckets in
    (
      record (free_all freed c) {
        buckets = no_heads c.buckets;
        entry_count = 0;
        lru_head = none;
        lru_tail = none;
      },
      freed,
    )

chain_from-two :
    (n : ℕ) (c : ModuleCache) (b p : ℕ)
    → 0 < n
    → next_of c b ≡ some p
    → (rest : List ℕ) × (chain_from (n + 1) c (some b) ≡ b ∷ p ∷ rest)
unfolding chain_from
chain_from-two zero c b p h next = absurd (omega arith)
chain_from-two (suc n) c b p h next =
    let fuel : suc n + 1 ≡ suc (suc n) = omega arith in
    (
      chain_from n c (next_of c p),
      ap (λ (k : ℕ). chain_from k c (some b)) fuel
          ∙ ap (λ (o : Option ℕ). b ∷ chain_from (suc n) c o) next,
    )

chain_from-one :
    (n : ℕ) (c : ModuleCache) (p : ℕ)
    → chain_from (n + 1) c (some p) ≡ p ∷ chain_from n c (next_of c p)
unfolding chain_from
chain_from-one n c p =
    let fuel : n + 1 ≡ suc n = omega arith in ap (λ (k : ℕ). chain_from k c (some p)) fuel

-- The chain from an entry of the list goes on with the entry after it in the list.
chain_from-linked :
    (c : ModuleCache) (before : Option ℕ) (front : List ℕ) (b p : ℕ) (back : List ℕ)
    → IsLinked c.store before (front ++ b ∷ p ∷ back)
    → (rest : List ℕ) × (chain_from (length c.store + 1) c (some b) ≡ b ∷ p ∷ rest)
unfolding next_of
chain_from-linked c before [] b p back (e, at, pv, nx, l) =
    let inside = get_elem?-lt c.store b e at in
    chain_from-two (length c.store) c b p (omega (arith, inside)) (ap next_in at ∙ nx)
chain_from-linked c before (q ∷ front) b p back (e, at, pv, nx, l) =
    chain_from-linked c (some q) front b p back l

clear_chains-++ :
    (c : ModuleCache) (bs cs : List (Option ℕ))
    → clear_chains c (bs ++ cs) ≡ clear_chains c bs ++ clear_chains c cs
unfolding clear_chains
clear_chains-++ c [] cs = refl
clear_chains-++ c (b ∷ bs) cs =
    ap (λ (xs : List ℕ). chain_from (length c.store + 1) c b ++ xs) (clear_chains-++ c bs cs)
    ∙ sym
        (append_assoc (chain_from (length c.store + 1) c b) (clear_chains c bs) (clear_chains c cs))

-- Of two entries that follow each other in the list and are each the head of a bucket, the first
-- bucket being that of the first entry, a clear frees the second entry twice: once at the end of the
-- walk from the first, which goes on along the list, and once in its own bucket.
pub cache_clear-twice :
    (c : ModuleCache) (front : List ℕ) (b p : ℕ) (back : List ℕ) (low mid high : List (Option ℕ))
    → IsLru c (front ++ b ∷ p ∷ back)
    → c.buckets ≡ low ++ some b ∷ (mid ++ some p ∷ high)
    → (xs ys zs : List ℕ) × ((cache_clear c).1 ≡ xs ++ p ∷ (ys ++ p ∷ zs))
unfolding cache_clear clear_chains
cache_clear-twice c front b p back low mid high l at =
    let n = length c.store in
    let (rest, walk) = chain_from-linked c none front b p back l.linked in
    let lows = clear_chains c low in
    let mids = clear_chains c mid in
    let highs = clear_chains c high in
    let more = chain_from n c (next_of c p) in
    let second : clear_chains c (mid ++ some p ∷ high) ≡ mids ++ p ∷ (more ++ highs) =
      clear_chains-++ c mid (some p ∷ high)
      ∙ ap (λ (xs : List ℕ). mids ++ (xs ++ highs)) (chain_from-one n c p) in
    let first : clear_chains c (some b ∷ (mid ++ some p ∷ high))
        ≡ b ∷ p ∷ (rest ++ (mids ++ p ∷ (more ++ highs))) =
      ap (λ (xs : List ℕ). xs ++ clear_chains c (mid ++ some p ∷ high)) walk
      ∙ ap (λ (xs : List ℕ). b ∷ p ∷ (rest ++ xs)) second in
    (
      lows ++ b ∷ [],
      rest ++ mids,
      more ++ highs,
      ap (clear_chains c) at
          ∙ clear_chains-++ c low (some b ∷ (mid ++ some p ∷ high))
          ∙ ap (λ (xs : List ℕ). lows ++ xs) first
          ∙ ap (λ (xs : List ℕ). lows ++ b ∷ p ∷ xs)
              (sym (append_assoc rest mids (p ∷ (more ++ highs))))
          ∙ sym (append_assoc lows (b ∷ []) (p ∷ ((rest ++ mids) ++ p ∷ (more ++ highs)))),
    )
