-- ===== src/Buckets/Card/Tests.antt =====
-- The deletion of a bucket from its card at concrete states.
use light_oss.Base.{ℕ, refl, true, false, []}
use light_oss.Base.Reach.{here, next}
use light_oss.Base.Text.{Text, codes, trim, is_space}
use light_oss.Buckets.Card.{
  DeleteDialog, Cards, is_match, handle_open_change, type_confirmation, delete_disabled,
  delete_pending, confirm_disabled, handle_delete, open_dialog, write, confirm,
}
use light_oss.Buckets.Card.Guarded.{IsGuarded, Reach-IsGuarded}

abbrev names : ℕ → Text
names card = codes "docs"

abbrev closed : DeleteDialog
closed = record { confirmation_value = []; is_open = false }

abbrev quiet : Cards
quiet = record { dialogs = λ card. closed; deleting_bucket_name = []; deletions = []; flights = [] }

abbrev opened : Cards
opened = handle_open_change 3 true quiet

abbrev typed : Cards
typed = type_confirmation 3 (codes " docs ") opened

Reach-IsGuarded_example : IsGuarded names (handle_delete (codes "docs") 3 typed)
Reach-IsGuarded_example =
    Reach-IsGuarded names (λ card e. cc e) {c = quiet}
      (record { one_open = λ i j p q. cc p; runs = refl; confirmed = tt })
      (next
        (next
          (next here (open_dialog quiet 3 false (λ card. refl) (unfold delete_disabled in refl)))
          (write opened 3 (codes " docs ") (unfold handle_open_change in refl)))
        (confirm typed 3 (unfold type_confirmation handle_open_change in refl) (
          unfold confirm_disabled is_match delete_pending type_confirmation handle_open_change trim
            is_space in
          refl)))
