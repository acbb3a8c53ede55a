-- ===== src/Keys/Tests.antt =====
-- Cases of test/tier0/keys.test.mjs.
use browsception.Prelude.{◌≡◌, refl, codes, true, false, text_eq, lower}
use browsception.Keys.{
  KeyEvent, host_key, host_paste_key, key_text, lower_key, accel_host, host_key_of,
}
use browsception.Keys.Routing.{host_paste_key-apart}

keys : Unit {0}
unfolding text_eq lower lower_key accel_host host_key_of host_key host_paste_key key_text
keys = tt

abbrev paste : KeyEvent
paste = record {
  key = codes "V";
  ctrl = true;
  meta = false;
  alt = false;
  shift = true;
  alt_graph = false;
}

key_tests :
    (host_paste_key paste ≡ true)
    × (host_key (record paste { key = codes "T" }) ≡ true)
    × (host_key (record paste { key = codes "z" }) ≡ false)
    × (key_text (record paste { key = codes "c" }) ≡ codes "")
    × (key_text (record paste { key = codes "@"; alt = true }) ≡ codes "@")
unfolding keys
key_tests = (refl, refl, refl, refl, refl)

is_paste : host_paste_key paste ≡ true
unfolding keys
is_paste = refl

host_paste_key-apart_example : host_key paste ≡ false
host_paste_key-apart_example = host_paste_key-apart paste is_paste
