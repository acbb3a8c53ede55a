-- ===== src/State/Tests.antt =====
-- The state of a fresh install.
use browsception.Prelude.{◌≡◌, refl, none}
use browsception.State.{get_state, default_state}

fresh_install :
    get_state (record {
      active = none;
      mode = none;
      whitelist = none;
      blacklist = none;
      allow_private_network = none;
    })
    ≡ default_state
unfolding get_state
fresh_install = refl
