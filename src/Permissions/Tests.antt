-- ===== src/Permissions/Tests.antt =====
-- Decisions of pkg/util/permissions/permissions.go on concrete permissions.
use aro_rp.Base.{◌≡◌, refl, true, false, some, [], ◌∷◌}
use aro_rp.Base.Text.{to_lower, equal_fold}
use aro_rp.Api.Error.{ok}
use aro_rp.Permissions.{Permission, can_do_action}
use aro_rp.Permissions.Granted.{Decided, can_do_action-Decided}

abbrev contributor : Permission
contributor = record {
  actions = some ("*" ∷ []);
  not_actions = some ("Microsoft.Authorization/*/Write" ∷ []);
}

writes : can_do_action (contributor ∷ []) "Microsoft.Network/virtualNetworks/write" ≡ ok true
unfolding can_do_action equal_fold to_lower
writes = refl

assigns : can_do_action (contributor ∷ []) "microsoft.authorization/roles/write" ≡ ok false
unfolding can_do_action equal_fold to_lower
assigns = refl

can_do_action-Decided_example : Decided (contributor ∷ []) "Microsoft.Network/virtualNetworks/write"
can_do_action-Decided_example =
    can_do_action-Decided (contributor ∷ []) "Microsoft.Network/virtualNetworks/write"
      (((_, refl), (_, refl)), tt)
