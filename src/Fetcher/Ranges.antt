-- ===== src/Fetcher/Ranges.antt =====
-- Which range `FetchNext` asks for.
use chain_indexor.Prelude.{
  ℕ, ◌+◌, ◌≤◌, ◌<◌, true, false, not, ◌&&◌, ◌≡◌, ◌∙◌, ap, refl, List, [], ◌∷◌, arith, ltb, leb,
  max_u64, u64_add, In, Bool-cases, inl, inr, if◌then◌else◌,
}
use chain_indexor.Types.{Address, Hash, Header, Error, Result, ok, err}
use chain_indexor.Unsynced.{UnsyncedTopics, is_empty, should_catch_up, get_addresses_and_topics}
use chain_indexor.Unsynced.Bounds.{should_catch_up-min}
use chain_indexor.LogStore.Gaps.{get_unsynced_topics}
use chain_indexor.Fetcher.{
  FetchMode, LogFetcherConfig, FetchResult, FetchEnv, FetchState, Heads, get_finalized_block,
  fetch_range, live_end, fetch_live, catch_up_range, catch_up, backfill_end, backfill_from,
  backfill_heads, fetch_backfill, next_in_mode, fetch_next,
}

-- A chunk that starts at `f`, is not empty and has at most `chunk` blocks.
abbrev pub IsChunk : ℕ → ℕ → ℕ → Type 0
IsChunk chunk f t = (f ≤ t) × (t < f + chunk)

live_end-IsChunk :
    (chunk f fin : ℕ)
    → 0 < chunk
    → f + chunk ≤ max_u64
    → f ≤ fin
    → 0 < f
    → fin ≤ max_u64
    → IsChunk chunk f (live_end chunk f fin) × (live_end chunk f fin ≤ fin)
live_end-IsChunk chunk f fin c m h p b = ground arith

backfill_end-IsChunk :
    (chunk f fin : ℕ)
    → 0 < chunk
    → f + chunk ≤ max_u64
    → f ≤ fin
    → IsChunk chunk f (backfill_end chunk f fin) × (backfill_end chunk f fin ≤ fin)
backfill_end-IsChunk chunk f fin c m h = ground arith

-- What one call of `FetchNext` amounts to: an error before anything was stored; a chunk of blocks
-- after the last indexed one that ends at or below a block that the node gave as finalized; or a
-- chunk of blocks up to the last indexed one, for a catch-up.
pub data Fetches (cfg : LogFetcherConfig) (env : FetchEnv) (heads : List Heads) (last : ℕ)
    (st : FetchState) (out : Result FetchResult × FetchState) : Type 0 where
  stops :
      (e : Error) (mode : FetchMode)
      → out ≡ (err e, record st { mode = mode })
      → Fetches cfg env heads last st out
  advances :
      (hd : Heads) (h : Header) (t : ℕ) (mode : FetchMode)
      → In hd heads
      → get_finalized_block cfg hd ≡ ok h
      → IsChunk cfg.chunk_size (last + 1) t
      → t ≤ h.number
      → out ≡ fetch_range cfg env (last + 1) t cfg.addresses cfg.topics (record st { mode = mode })
      → Fetches cfg env heads last st out
  catches_up :
      (f t : ℕ) (xs : List Address) (tss : List (List Hash)) (mode : FetchMode)
      → IsChunk cfg.chunk_size f t
      → t ≤ last
      → out ≡ fetch_range cfg env f t xs tss (record st { mode = mode })
      → Fetches cfg env heads last st out

-- Every head of the node is a 64-bit number.
abbrev pub HeadsFit : LogFetcherConfig → List Heads → Type 0
HeadsFit cfg heads =
    (hd : Heads) (h : Header) → In hd heads → get_finalized_block cfg hd ≡ ok h → h.number ≤ max_u64

module _ (cfg : LogFetcherConfig) (env : FetchEnv) (last : ℕ) where
  fetch_live_err :
      (hd : Heads) (more : List Heads) (st : FetchState) (e : Error)
      → get_finalized_block cfg hd ≡ err e
      → fetch_live cfg env (hd ∷ more) last st ≡ (err e, st)
  unfolding fetch_live
  fetch_live_err hd more st e g = rw (g, fetch_live)

  fetch_live_wait :
      (hd : Heads) (more : List Heads) (st : FetchState) (h : Header)
      → get_finalized_block cfg hd ≡ ok h
      → ltb h.number (u64_add last 1) ≡ true
      → fetch_live cfg env (hd ∷ more) last st ≡ fetch_live cfg env more last st
  unfolding fetch_live
  fetch_live_wait hd more st h g w = rw (g, fetch_live) (rw w)

  fetch_live_go :
      (hd : Heads) (more : List Heads) (st : FetchState) (h : Header)
      → get_finalized_block cfg hd ≡ ok h
      → ltb h.number (u64_add last 1) ≡ false
      → fetch_live cfg env (hd ∷ more) last st
        ≡ fetch_range cfg env
            (u64_add last 1)
            (live_end cfg.chunk_size (u64_add last 1) h.number)
            cfg.addresses
            cfg.topics
            st
  unfolding fetch_live
  fetch_live_go hd more st h g w = rw (g, fetch_live) (rw w)

module _ (cfg : LogFetcherConfig) (env : FetchEnv) (last : ℕ) (chunk_pos : 0 < cfg.chunk_size)
    (room : last + 1 + cfg.chunk_size ≤ max_u64) where
  weaken :
      (hd : Heads) (more : List Heads) (st : FetchState) (mode : FetchMode)
      (out : Result FetchResult × FetchState)
      → Fetches cfg env more last (record st { mode = mode }) out
      → Fetches cfg env (hd ∷ more) last st out
  weaken hd more st mode out (stops e m q) = stops e m q
  weaken hd more st mode out (advances hd' h t m i g c l q) = advances hd' h t m (inr i) g c l q
  weaken hd more st mode out (catches_up f t xs tss m c l q) = catches_up f t xs tss m c l q

  next_block : u64_add last 1 ≡ last + 1
  next_block = omega arith

  live_advances :
      (hd : Heads) (heads : List Heads) (h : Header) (st : FetchState)
      (out : Result FetchResult × FetchState)
      → In hd heads
      → get_finalized_block cfg hd ≡ ok h
      → h.number ≤ max_u64
      → ltb h.number (u64_add last 1) ≡ false
      → out
        ≡ fetch_range cfg env
            (u64_add last 1)
            (live_end cfg.chunk_size (u64_add last 1) h.number)
            cfg.addresses
            cfg.topics
            st
      → Fetches cfg env heads last st out
  live_advances hd heads h st out i g b w q =
      let (c, l) =
        live_end-IsChunk cfg.chunk_size (last + 1) h.number chunk_pos room (ground arith)
          (omega arith) b in
      advances hd h (live_end cfg.chunk_size (last + 1) h.number) st.mode i g c l (
        q
        ∙ ap
            (λ f.
              fetch_range cfg env f (live_end cfg.chunk_size f h.number) cfg.addresses cfg.topics
                st)
            next_block)

  live_cases :
      (hd : Heads) (more : List Heads) (st : FetchState)
      → HeadsFit cfg (hd ∷ more)
      → Fetches cfg env more last st (fetch_live cfg env more last st)
      → (r : Result Header) → get_finalized_block cfg hd ≡ r
      → Fetches cfg env (hd ∷ more) last st (fetch_live cfg env (hd ∷ more) last st)
  live_cases hd more st fit ih (err e) g =
      stops e st.mode (fetch_live_err cfg env last hd more st e g)
  live_cases hd more st fit ih (ok h) g = elim (Bool-cases (ltb h.number (u64_add last 1))) [
    | inl w ↦
        rw (fetch_live_wait cfg env last hd more st h g w)
          (weaken hd more st st.mode (fetch_live cfg env more last st) ih)
    | inr w ↦
        live_advances hd (hd ∷ more) h st _ (inl refl) g (fit hd h (inl refl) g) w
          (fetch_live_go cfg env last hd more st h g w)
  ]

  fetch_live-Fetches :
      (heads : List Heads) (st : FetchState)
      → HeadsFit cfg heads
      → Fetches cfg env heads last st (fetch_live cfg env heads last st)
  fetch_live-Fetches [] st fit = stops Error.cancelled st.mode (unfold fetch_live in refl)
  fetch_live-Fetches (hd ∷ more) st fit =
      let ih = fetch_live-Fetches more st (λ d h i. fit d h (inr i)) in
      live_cases hd more st fit ih (get_finalized_block cfg hd) refl

  backfill_heads-Fetches :
      (heads : List Heads) (st : FetchState)
      → HeadsFit cfg heads
      → Fetches cfg env heads last st (backfill_heads cfg env heads last st)
  backfill_heads-Fetches [] st fit = stops Error.cancelled st.mode refl
  backfill_heads-Fetches (hd ∷ more) st fit = go (get_finalized_block cfg hd) refl
    where
      go :
          (r : Result Header)
          → get_finalized_block cfg hd ≡ r
          → Fetches cfg env (hd ∷ more) last st (backfill_from cfg env more last st r)
      go (err e) g = stops e st.mode refl
      go (ok h) g = elim (Bool-cases (leb h.number (u64_add last 1))) [
        | inl w ↦ rw w (
            weaken hd more st FetchMode.live _ (
              fetch_live-Fetches more (record st { mode = FetchMode.live })
                (λ d x i. fit d x (inr i))))
        | inr w ↦ rw w (
            let (c, l) =
              backfill_end-IsChunk cfg.chunk_size (last + 1) h.number chunk_pos room
                (ground arith) in
            advances hd h (backfill_end cfg.chunk_size (last + 1) h.number) st.mode (inl refl) g c l
              (ap
                (λ f.
                  fetch_range cfg env f (backfill_end cfg.chunk_size f h.number) cfg.addresses
                    cfg.topics st)
                next_block))
      ]

  catch_up_range-IsChunk :
      (c start : ℕ)
      → start < last
      → c < last
      → IsChunk cfg.chunk_size
          (catch_up_range cfg last start c).0
          (catch_up_range cfg last start c).1
        × ((catch_up_range cfg last start c).1 ≤ last)
  catch_up_range-IsChunk c start lo hi = ground arith

  catch_up-Fetches :
      (heads : List Heads) (start : ℕ) (ut : UnsyncedTopics) (st : FetchState)
      → should_catch_up ut last start ≡ true
      → Fetches cfg env heads last st (catch_up cfg env last start (get_addresses_and_topics ut) st)
  catch_up-Fetches heads start ut st s =
      let (xs, tss, c) = get_addresses_and_topics ut in
      let (lo, hi) = should_catch_up-min ut last start s in
      let (f, t) = catch_up_range cfg last start c in
      let (chunk, le) = catch_up_range-IsChunk c start lo hi in
      catches_up f t xs tss st.mode chunk le refl

  fetch_backfill-Fetches :
      (heads : List Heads) (start : ℕ) (st : FetchState)
      → HeadsFit cfg heads
      → Fetches cfg env heads last st (fetch_backfill cfg env heads last start st)
  unfolding fetch_backfill
  fetch_backfill-Fetches heads start st fit =
      go (get_unsynced_topics env.unsynced_faults st.store cfg.addresses cfg.topics last)
    where
      go :
          (r : Result UnsyncedTopics)
          → Fetches cfg env heads last st (elim r [
            | err e ↦ (err e, st)
            | ok ut ↦
                if not (is_empty ut) && should_catch_up ut last start
                then catch_up cfg env last start (get_addresses_and_topics ut) st
                else backfill_heads cfg env heads last st
          ])
      go (err e) = stops e st.mode refl
      go (ok ut) = elim (Bool-cases (not (is_empty ut) && should_catch_up ut last start)) [
        | inl w ↦ rw w (catch_up-Fetches heads start ut st (ground arith))
        | inr w ↦ rw w (backfill_heads-Fetches heads st fit)
      ]

-- With a positive chunk size, a last indexed block that leaves room for a chunk, and heads that are
-- 64-bit numbers, each call of `FetchNext` stops with an error and changes at most the mode, or
-- fetches one chunk: of the blocks right after the last indexed one, not past a block that the node
-- gave as finalized, or of blocks up to the last indexed one.
pub fetch_next-Fetches :
    (cfg : LogFetcherConfig) (env : FetchEnv) (heads : List Heads) (last start : ℕ)
    (st : FetchState)
    → 0 < cfg.chunk_size
    → last + 1 + cfg.chunk_size ≤ max_u64
    → HeadsFit cfg heads
    → Fetches cfg env heads last st (fetch_next cfg env heads last start st)
unfolding fetch_next
fetch_next-Fetches cfg env heads last start st pos room fit = go st.mode
  where
    go :
        (m : FetchMode) → Fetches cfg env heads last st (next_in_mode m cfg env heads last start st)
    go FetchMode.backfill = fetch_backfill-Fetches cfg env last pos room heads start st fit
    go FetchMode.live = fetch_live-Fetches cfg env last pos room heads st fit
    go (FetchMode.other _) = stops Error.unknown_mode st.mode refl
