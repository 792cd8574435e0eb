-- ===== src/Matcher/Level.antt =====
-- libs/matcher/src/matching_engine.cpp: the operations of `PriceLevel`.
use mmperp.Prelude.{ℕ, List, [], ◌∷◌, ◌++◌, Bool, true, false, some, none, ◌==◌, if◌then◌else◌}
use mmperp.Prelude.Int.{ℤ, ◌+ℤ◌, ◌-ℤ◌}
use mmperp.Matcher.Types.{OrderRecord, PriceLevel, refresh_display}

-- Both return the level and the record as they leave them.
unfoldable pub push_back : PriceLevel → ℕ → ℤ → OrderRecord → PriceLevel × OrderRecord
push_back l key price r = (
  record {
    queue = l.queue ++ key ∷ [];
    total_qty = l.total_qty +ℤ r.remaining;
    visible_qty = l.visible_qty +ℤ r.display_remaining;
  },
  record r { level = some price },
)

-- Unlinking takes one record out of the queue.
unfoldable pub unlink : ℕ → List ℕ → List ℕ
unlink key [] = []
unlink key (k ∷ ks) = if k == key then ks else k ∷ unlink key ks

unfoldable pub remove : PriceLevel → ℕ → OrderRecord → PriceLevel × OrderRecord
remove l key r = (
  record {
    queue = unlink key l.queue;
    total_qty = l.total_qty -ℤ r.remaining;
    visible_qty = l.visible_qty -ℤ r.display_remaining;
  },
  record r { level = none },
)

unfoldable pub update_after_fill : PriceLevel → OrderRecord → ℤ → PriceLevel × OrderRecord
update_after_fill l r filled =
    let r' = refresh_display r in
    (
      record l {
        total_qty = l.total_qty -ℤ filled;
        visible_qty = l.visible_qty -ℤ r.display_remaining +ℤ r'.display_remaining;
      },
      r',
    )

abbrev pub no_keys : List ℕ → Bool
no_keys [] = true
no_keys (k ∷ ks) = false

-- `PriceLevel::empty`
abbrev pub is_empty : PriceLevel → Bool
is_empty l = no_keys l.queue
