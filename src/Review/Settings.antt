-- ===== src/Review/Settings.antt =====
-- `user_settings` and `update_user_settings` of apps/api/src/store.rs.
use prosepect.Base.{ℕ, none, some, Bool, true, ◌&&◌, [], ◌∷◌, ◌++◌, ◌==◌, find?, update_where}
use prosepect.Base.Int.{ℤ, is_version}
use prosepect.Error.{AppResult, ok, err, panicked, conflict, changed_since, not_found}
use prosepect.Store.{Policy, ask, next_version}
use prosepect.Review.{Desk, UserSettings, ThemePreference, system}

pub record UpdateUserSettingsRequest : Type 0 where
  pub theme : ThemePreference
  pub automatic_daily_review : Bool
  pub sync_conflict_policy : Policy
  pub sidebar_visible : Bool
  pub expected_version : ℤ

abbrev pub is_of : ℕ → UserSettings → Bool
is_of user s = s.user_id == user

module _ (now user : ℕ) where
  abbrev pub default_settings : UserSettings
  default_settings = record {
    user_id = user;
    theme = system;
    automatic_daily_review = true;
    sync_conflict_policy = ask;
    sidebar_visible = true;
    updated_at = now;
    version = 1;
  }

  unfoldable pub user_settings : Desk → Desk × UserSettings
  user_settings d = elim (find? (is_of user) d.settings) [
    | some s ↦ (d, s)
    | none ↦ (record d { settings = d.settings ++ default_settings ∷ [] }, default_settings)
  ]

  abbrev pub is_current_settings : ℤ → UserSettings → Bool
  is_current_settings expected s = is_of user s && is_version expected s.version

  abbrev pub written : UpdateUserSettingsRequest → ℕ → UserSettings → UserSettings
  written request version s = record s {
    theme = request.theme;
    automatic_daily_review = request.automatic_daily_review;
    sync_conflict_policy = request.sync_conflict_policy;
    sidebar_visible = request.sidebar_visible;
    updated_at = now;
    version = version;
  }

  abbrev pub store_settings :
      UpdateUserSettingsRequest → UserSettings → Desk → AppResult ℕ → Desk × AppResult UserSettings
  store_settings request s d (ok version) = (
    record d {
      settings =
          update_where (is_current_settings request.expected_version) (written request version)
            d.settings;
    },
    ok (written request version s),
  )
  store_settings request s d (err e) = (d, err e)
  store_settings request s d panicked = (d, panicked)

  -- The row that the first statement inserts stays when the second fails: there is no transaction.
  unfoldable pub update_user_settings :
      UpdateUserSettingsRequest → Desk → Desk × AppResult UserSettings
  unfolding user_settings
  update_user_settings request d =
      let (d1, _) = user_settings d in
      elim (find? (is_current_settings request.expected_version) d1.settings) [
        | some s ↦ store_settings request s d1 (next_version s.version)
        | none ↦ elim (find? (is_of user) d1.settings) [
          | some s ↦
              (d1, err (conflict (changed_since "settings" request.expected_version s.version)))
          | none ↦ (d1, err (not_found "settings"))
        ]
      ]
