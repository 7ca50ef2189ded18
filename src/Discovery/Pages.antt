-- ===== src/Discovery/Pages.antt =====
-- The bootstrap and changes pages of personal discovery (`page` of
-- plugins/LumaeAnalysis/personal_discovery.py), and that a page skips nothing.
use native.Mathlib.Numerals.{add-one}
use lumae_plugin.Prelude.{
  ℕ, suc, ◌+◌, ◌≤◌, ◌<◌, ◌≡◌, refl, ◌⊎◌, inl, inr, Bool, true, false, ◌&&◌, ◌||◌, not, String,
  Option, none, some, List, ◌==◌, ltb, leb, ltb_false→le, if◌then◌else◌, min, max, length, take,
  keep, All, All-map, Has, take-take, take-all, Bool-cases, arith,
}
use lumae_plugin.Json.{ℤ, pos, negsuc, pos_part, Result, ok, err, refused, unless, ◌>>=◌, ◌>>◌}
use lumae_plugin.Feed.{Row, Table, Page, order_by_seq, last_seq_or}
use lumae_plugin.Feed.Order.{
  IsAbove, SeqsDiffer, All-order_by_seq, order_by_seq-IsSorted, Has-order_by_seq, Has-keep,
  keep-passes, keep-SeqsDiffer, All-take, cut, last_seq_or-le, last_seq_or-bounded, take-IsSorted,
}
use lumae_plugin.Discovery.{Record, Space, scope}

-- The query's arguments: `none` where `int` raises, and where `head` or `epoch` is missing.
pub record Args : Type 0 where
  pub limit : Option ℤ
  pub cursor : Option ℤ
  pub head : Option (Option ℤ)
  pub epoch : Option String

pub data PageAnswer : Type 0 where
  listed : (epoch : String) (head : ℕ) (rows : Page Record) → PageAnswer
  bootstrap_required : (epoch : String) → PageAnswer  -- 410

abbrev pub parsed_int : Option ℤ → Result ℤ
parsed_int none = err (refused "invalid literal for int()")
parsed_int (some z) = ok z

abbrev pub not_negative : String → ℤ → Result ℕ
not_negative text (pos n) = ok n
not_negative text (negsuc n) = err (refused text)

-- `max(1, min(250, …))`
abbrev pub page_limit : ℤ → ℕ
page_limit (pos n) = max 1 (min 250 n)
page_limit (negsuc n) = 1

abbrev pub is_current : Option String → String → Bool
is_current none epoch = false
is_current (some e) epoch = e == epoch

abbrev pub ceiling_of : Bool → Option (Option ℤ) → ℕ → Result ℤ
ceiling_of false head last = ok (pos last)
ceiling_of true none last = ok (pos last)
ceiling_of true (some sent) last = parsed_int sent

abbrev pub is_above : ℤ → ℕ → Bool
is_above (pos n) m = ltb m n
is_above (negsuc n) m = false

abbrev pub is_below : ℤ → ℕ → Bool
is_below (pos n) m = ltb n m
is_below (negsuc n) m = true

module _ {V : Type 0} where
  -- WHERE seq>cursor AND seq<=ceiling
  unfoldable pub is_within : ℕ → ℕ → Row V → Bool
  is_within cursor ceiling r = ltb cursor r.seq && leb r.seq ceiling

  unfoldable pub window : ℕ → ℕ → ℕ → Table V → Page V
  unfolding is_within
  window cursor ceiling limit t =
      let rows = take (limit + 1) (order_by_seq (keep (is_within cursor ceiling) t.rows)) in
      let more = ltb limit (length rows) in
      record {
        records = take limit rows;
        cursor = if more then last_seq_or cursor (take limit rows) else ceiling;
        has_more = more;
      }

unfoldable pub page_from : Bool → ℕ → ℕ → Args → String → Table Record → Result PageAnswer
unfolding window
page_from bootstrap limit cursor args epoch t =
    if (not bootstrap || ltb 0 cursor) && not (is_current args.epoch epoch)
    then ok (bootstrap_required epoch)
    else (do
      ceiling ← ceiling_of bootstrap args.head t.last_seq
      let outdated = ltb t.last_seq cursor
      unless (not outdated && (is_above ceiling t.last_seq || is_below ceiling cursor))
          (refused "Invalid head")
      ok (
          if outdated
          then bootstrap_required epoch
          else listed epoch (pos_part ceiling) (window cursor (pos_part ceiling) limit t)))

-- `page(db, user, args, bootstrap)`
unfoldable pub page : Bool → String → Args → Space → Result (PageAnswer × Space)
unfolding page_from
page bootstrap new_epoch args sp = do
  limit ← parsed_int args.limit
  sent ← parsed_int args.cursor
  cursor ← not_negative "Invalid cursor" sent
  let (epoch, entered) = scope new_epoch sp
  answer ← page_from bootstrap (page_limit limit) cursor args epoch entered.table
  ok (answer, entered)

module _ {V : Type 0} (c h n : ℕ) (t : Table V) where
  abbrev chosen : List (Row V)
  chosen = order_by_seq (keep (is_within c h) t.rows)

  within-bounds : (r : Row V) → is_within c h r ≡ true → (c < r.seq) × (r.seq ≤ h)
  unfolding is_within
  within-bounds r w = ground arith

  chosen-IsAbove : IsAbove c chosen
  chosen-IsAbove =
      All-order_by_seq _ _
        (All-map (λ r w. (within-bounds r w).0) _ (keep-passes (is_within c h) t.rows))

  chosen-bounded : All (λ r. r.seq ≤ h) chosen
  chosen-bounded =
      All-order_by_seq _ _
        (All-map (λ r w. (within-bounds r w).1) _ (keep-passes (is_within c h) t.rows))

  chosen-Has : (a : Row V) → Has a t.rows → c < a.seq → a.seq ≤ h → Has a chosen
  chosen-Has a i l m =
      Has-order_by_seq a _ (Has-keep a (is_within c h) t.rows (unfold is_within in ground arith) i)

  -- The records between a page's cursor and its head are on the page or behind its new cursor, on
  -- the page if it says that there are no more, and the new cursor lies between the old one and the
  -- head.
  pub window_skips_nothing :
      SeqsDiffer t.rows
      → c ≤ h
      → ((a : Row V)
          → Has a t.rows
          → c < a.seq
          → a.seq ≤ h
          → Has a (window c h n t).records
            ⊎ (((window c h n t).cursor < a.seq) × ((window c h n t).has_more ≡ true)))
        × (c ≤ (window c h n t).cursor)
        × ((window c h n t).cursor ≤ h)
  unfolding window
  window_skips_nothing d l = elim (Bool-cases (ltb n (length (take (suc n) chosen)))) [
    | inl e ↦
        rw (add-one n, e, take-take n chosen)
          (
            (λ a i above below.
                elim (cut a c n chosen chosen-IsAbove
                  (order_by_seq-IsSorted _ (keep-SeqsDiffer (is_within c h) t.rows d))
                  (chosen-Has a i above below)) [ inl q ↦ inl q | inr q ↦ inr (q, refl) ]),
            last_seq_or-le c (take n chosen) (All-take _ n chosen chosen-IsAbove) (
                take-IsSorted n chosen
                  (order_by_seq-IsSorted _ (keep-SeqsDiffer (is_within c h) t.rows d))),
            last_seq_or-bounded c h (take n chosen) l (All-take _ n chosen chosen-bounded),
          )
    | inr e ↦
        rw (add-one n, e, take-take n chosen, take-all n chosen (ltb_false→le n _ e))
          ((λ a i above below. inl (chosen-Has a i above below)), l, omega arith)
  ]
