-- ===== src/Ledger/Totals.antt =====
-- What the movements of libs/ledger add up to.
use mmperp.Prelude.{List, [], ◌∷◌, ap, ◌∙◌, arith, ℕ, ◌≡◌, ◌==◌, if◌then◌else◌, insert}
use mmperp.Prelude.Int.{ℤ, pos, ◌+ℤ◌, ◌-ℤ◌, int_laws}
use mmperp.Ledger.{LedgerState, LedgerAccount, get, credit, debit}

abbrev pub total : LedgerAccount → ℤ
total a = a.collateral_available +ℤ a.collateral_locked

credited : (a b t : ℤ) → a +ℤ t +ℤ b ≡ a +ℤ b +ℤ t
credited a b t = omega int_laws

moved : (a b t : ℤ) → (a -ℤ t) +ℤ (b +ℤ t) ≡ a +ℤ b
moved a b t = omega int_laws

total-credit :
    (l : LedgerState) (s j : ℕ) (amount : ℤ)
    → total (get (credit l s amount) j)
      ≡ (if j == s then total (get l s) +ℤ amount else total (get l j))
unfolding get credit insert
total-credit l s j amount =
    ground (arith, credited (get l s).collateral_available (get l s).collateral_locked amount)

unmoved_if :
    (l : LedgerState) (s j : ℕ) (amount : ℤ)
    → total (get (debit l s amount) j) ≡ (if j == s then total (get l s) else total (get l j))
unfolding get debit insert
unmoved_if l s j amount =
    ground (arith, moved (get l s).collateral_available (get l s).collateral_locked amount)

same_total :
    (l : LedgerState) (s j : ℕ)
    → (if j == s then total (get l s) else total (get l j)) ≡ total (get l j)
same_total l s j = ground arith

total-debit :
    (l : LedgerState) (s j : ℕ) (amount : ℤ) → total (get (debit l s amount) j) ≡ total (get l j)
total-debit l s j amount = unmoved_if l s j amount ∙ same_total l s j

-- The movements of a ledger.
pub data Movement : Type 0 where
  credits debits : ℕ → ℤ → Movement

unfoldable pub move : LedgerState → Movement → LedgerState
unfolding credit debit
move l (credits s amount) = credit l s amount
move l (debits s amount) = debit l s amount

unfoldable pub move_all : LedgerState → List Movement → LedgerState
unfolding move
move_all l [] = l
move_all l (m ∷ ms) = move_all (move l m) ms

-- What a movement, and several, bring to a session.
abbrev brought : ℕ → Movement → ℤ
brought j (credits s amount) = if j == s then amount else pos 0
brought j (debits s amount) = pos 0

abbrev pub brought_by : ℕ → List Movement → ℤ
brought_by j [] = pos 0
brought_by j (m ∷ ms) = brought j m +ℤ brought_by j ms

nothing_added : (a : ℤ) → a ≡ a +ℤ pos 0
nothing_added a = omega int_laws

grouped : (a b c : ℤ) → a +ℤ b +ℤ c ≡ a +ℤ (b +ℤ c)
grouped a b c = omega int_laws

credited_if :
    (l : LedgerState) (s j : ℕ) (amount : ℤ)
    → (if j == s then total (get l s) +ℤ amount else total (get l j))
      ≡ total (get l j) +ℤ (if j == s then amount else pos 0)
credited_if l s j amount = ground (arith, nothing_added (total (get l j)))

total-move :
    (l : LedgerState) (m : Movement) (j : ℕ)
    → total (get (move l m) j) ≡ total (get l j) +ℤ brought j m
unfolding move
total-move l (credits s amount) j = total-credit l s j amount ∙ credited_if l s j amount
total-move l (debits s amount) j = total-debit l s j amount ∙ nothing_added (total (get l j))

-- After any credits and debits, the available and the locked collateral of a session add up to what it
-- had in all before, and the credits that it got: no debit and no other session's credit changes the
-- total.
pub total-move_all :
    (l : LedgerState) (ms : List Movement) (j : ℕ)
    → total (get (move_all l ms) j) ≡ total (get l j) +ℤ brought_by j ms
unfolding move_all
total-move_all l [] j = nothing_added (total (get l j))
total-move_all l (m ∷ ms) j =
    total-move_all (move l m) ms j
    ∙ ap (λ t. t +ℤ brought_by j ms) (total-move l m j)
    ∙ grouped (total (get l j)) (brought j m) (brought_by j ms)
