-- ===== src/Viewer/History.antt =====
-- src/ext/viewer.mjs: the tab's back and forward buttons drive the engine.
use browsception.Viewer.{
  pop_state, Viewer, drive, engine_go, sync_tab_history, UrlSignal, on_url, is_shown,
}
use browsception.Prelude.Integers.{
  ℤ, int_eq, ◌-ℤ◌, int_le, pos, int_lt, negsuc, ◌+ℤ◌, add-sub, int_eq_refl,
}
use browsception.Prelude.{
  ◌≡◌, Option, true, Text, some, false, ◌∷◌, [], ap, arith, text_eq, Bool, none, refl, starts_with,
  ◌≢◌, ◌∙◌, text_eq_refl, sym,
}
use browsception.Host.{UrlParser}

pub int_eq-true : (a b : ℤ) → int_eq a b ≡ true → a ≡ b
int_eq-true (pos a) (pos b) h = ap pos (ground arith)
int_eq-true (pos a) (negsuc b) h = cc
int_eq-true (negsuc a) (pos b) h = cc
int_eq-true (negsuc a) (negsuc b) h = ap negsuc (ground arith)

-- The target is an entry of the engine's list, and the engine is not on it.
abbrev pub IsHop : Viewer → ℤ → ℤ → Type 0
IsHop v here idx =
    (v.index ≡ some here)
    × (int_eq here idx ≡ false)
    × (int_le (pos 0) idx ≡ true)
    × (int_lt idx v.length ≡ true)

abbrev pub IsLive : Viewer → Type 0
IsLive v = (v.ready ≡ true) × (v.dead ≡ false)

-- The viewer behind a `popstate` to an entry of the engine's list.
abbrev pub hopping : Viewer → ℤ → ℤ → Option Text → Viewer
hopping v here idx url = record v {
  mirror_url = url;
  mirror_index = some idx;
  want = some (record { index = idx; url = url });
  issued_from = some here;
}

pub pop_state-hop :
    (parse : UrlParser) (v : Viewer) (here idx : ℤ) (url : Option Text)
    → IsLive v
    → IsHop v here idx
    → pop_state parse v (some idx) url ≡ (hopping v here idx url, engine_go (idx -ℤ here) ∷ [])
unfolding pop_state drive
pop_state-hop parse v here idx url live hop = rw (live.1, live.0, hop.0, hop.1, hop.2, hop.3) refl

shown-is_some : (url : Text) → is_shown url ≡ true → text_eq url [] ≡ false
unfolding text_eq starts_with
shown-is_some [] h = cc
shown-is_some (c ∷ url) h = refl

-- The signal of an engine that did the hop.
abbrev pub obeyed : ℤ → ℤ → Text → ℤ → UrlSignal
obeyed here hop url length = record {
  url = some url;
  is_new = false;
  index = some (here +ℤ hop);
  length = length;
}

abbrev arrived : Viewer → ℤ → Text → ℤ → Viewer
arrived v idx url length = record v {
  url = some url;
  index = some idx;
  length = length;
  mirror_url = some url;
  mirror_index = some idx;
  force_replace = false;
  want = none;
  issued_from = none;
}

on_url-hopping :
    (parse : UrlParser) (tab_url_for : Text → Text) (allowed : Bool) (v : Viewer)
    (here idx length : ℤ) (url : Text)
    → IsLive v
    → is_shown url ≡ true
    → on_url parse tab_url_for allowed
        (hopping v here idx (some url))
        (obeyed here (idx -ℤ here) url length)
      ≡ (arrived v idx url length, [])
unfolding on_url sync_tab_history drive
on_url-hopping parse tab_url_for allowed v here idx length url live shown =
    rw
      (
        add-sub here idx,
        shown,
        text_eq_refl url,
        int_eq_refl idx,
        live.1,
        live.0,
        shown-is_some url shown,
        text_eq_refl url,
        int_eq_refl idx,
      )
      refl

-- A step back or forward in the tab makes the engine hop to the entry, and when the engine's signal
-- says that it is there, all is at rest: no call is made any more, no hop is wanted, and the mirror
-- and the engine are at the entry's index and URL.
pub hop-arrives :
    (parse : UrlParser) (tab_url_for : Text → Text) (allowed : Bool) (v : Viewer)
    (here idx length : ℤ) (url : Text)
    → IsLive v
    → IsHop v here idx
    → is_shown url ≡ true
    → let popped = pop_state parse v (some idx) (some url) in
      let after =
        on_url parse tab_url_for allowed popped.0 (obeyed here (idx -ℤ here) url length) in
      (popped.1 ≡ engine_go (idx -ℤ here) ∷ [])
      × (after.1 ≡ [])
      × (after.0.want ≡ none)
      × (after.0.index ≡ some idx)
      × (after.0.mirror_index ≡ some idx)
      × (after.0.mirror_url ≡ some url)
hop-arrives parse tab_url_for allowed v here idx length url live hop shown =
    let e = pop_state-hop parse v here idx (some url) live hop in
    let a =
      ap (λ p. on_url parse tab_url_for allowed p.0 (obeyed here (idx -ℤ here) url length)) e
      ∙ on_url-hopping parse tab_url_for allowed v here idx length url live shown in
    (
      ap (λ p. p.1) e,
      ap (λ p. p.1) a,
      ap (λ p. p.0.want) a,
      ap (λ p. p.0.index) a,
      ap (λ p. p.0.mirror_index) a,
      ap (λ p. p.0.mirror_url) a,
    )

add_back : (a d : ℤ) → (a +ℤ d) -ℤ d ≡ a
unfolding ◌+ℤ◌ ◌-ℤ◌
add_back (pos a) (pos d) = ground arith
add_back (pos a) (negsuc d) = ground arith
add_back (negsuc a) (pos d) = ground arith
add_back (negsuc a) (negsuc d) = ground arith

add_cancel : (a b d : ℤ) → a +ℤ d ≡ b +ℤ d → a ≡ b
add_cancel a b d h = sym (add_back a d) ∙ ap (λ x. x -ℤ d) h ∙ add_back b d

past_it : (here i j : ℤ) → int_eq here i ≡ false → (here +ℤ (i -ℤ here)) +ℤ (j -ℤ here) ≢ j
past_it here i j h e =
    let same : i ≡ here =
      add_cancel i here (j -ℤ here)
        (ap (λ x. x +ℤ (j -ℤ here)) (sym (add-sub here i)) ∙ e ∙ sym (add-sub here j)) in
    let eq = int_eq_refl here in
    let differ : int_eq here here ≡ false = ap (λ x. int_eq here x) (sym same) ∙ h in cc

-- Two steps in the tab before the engine has moved are two hops from the same index: the second is
-- not held back, and an engine that does both is not at the entry that the tab is on.
pub burst-overshoots :
    (parse : UrlParser) (v : Viewer) (here i j : ℤ) (first second : Option Text)
    → IsLive v
    → IsHop v here i
    → IsHop v here j
    → let one = pop_state parse v (some i) first in
      let two = pop_state parse one.0 (some j) second in
      (one.1 ≡ engine_go (i -ℤ here) ∷ [])
      × (two.1 ≡ engine_go (j -ℤ here) ∷ [])
      × ((here +ℤ (i -ℤ here)) +ℤ (j -ℤ here) ≢ j)
burst-overshoots parse v here i j first second live hop_i hop_j =
    let e = pop_state-hop parse v here i first live hop_i in
    let f =
      ap (λ p. pop_state parse p.0 (some j) second) e
      ∙ pop_state-hop parse (hopping v here i first) here j second live hop_j in
    (ap (λ p. p.1) e, ap (λ p. p.1) f, past_it here i j hop_i.1)
