-- ===== src/Bridge/RuleIds/Begin.antt =====
-- `#begin` ends, whichever way it goes: its one loop is the search for a rule id.
use browsception.Prelude.{
  ◌≤◌, ◌<◌, ◌-◌, ◌≡◌, Text, [], ◌∷◌, Option, none, some, Bool, true, false, refl, ap, length,
  if◌then◌else◌, codes,
}
use browsception.BridgeRules.{Fields, field, per_request_min_id, per_request_max_id, delete_field}
use browsception.Bridge.{Bridge, Step, Request, Options}
use browsception.Bridge.RuleIds.Fresh.{alloc_rule_id_fresh}
use browsception.Bridge.Requests.{
  install_base, begin_adopted, begin, with_rule, begin_judged, adopt, give_rule, adopt_ua, adopt_at,
  begin_allowed, begun, await_all,
}
use browsception.Prelude.Maps.{put}
use browsception.Bridge.Headers.{dnr_fields}

-- The cursor is in its range, and not every id of the range is in use.
abbrev pub HasRoom : Bridge → Type 0
HasRoom b =
    (per_request_min_id ≤ b.next_rule_id)
    × (b.next_rule_id < per_request_max_id)
    × (length b.used_rule_ids < per_request_max_id - per_request_min_id)

abbrev HasResult {ℓ} : {A : Type ℓ} → Option A → Type ℓ
HasResult {A} o = (a : A) × (o ≡ some a)

adopt_at-HasRoom :
    (o : Options) (ua : Text) (b : Bridge) (same adopted : Bool)
    → HasRoom b
    → HasRoom (adopt_at o ua b same adopted).1.0
unfolding install_base
adopt_at-HasRoom o ua b true adopted h = h
adopt_at-HasRoom o ua b false true h = h
adopt_at-HasRoom o ua b false false h = h

adopt-HasRoom :
    (o : Options) (ua : Option Text) (b : Bridge) → HasRoom b → HasRoom (adopt o ua b).1.0
adopt-HasRoom o none b h = h
adopt-HasRoom o (some ua) b h = unfold adopt_ua in adopt_at-HasRoom o ua b _ _ h

with_rule-HasResult :
    (o : Options) (req : Request) (dnr : Fields) (b : Bridge)
    → HasRoom b
    → HasResult (with_rule o req dnr b)
with_rule-HasResult o req [] b h = ((none, b), refl)
with_rule-HasResult o req (f ∷ dnr) b (lo, hi, room) =
    let (j, e, _, _, _) = alloc_rule_id_fresh b.used_rule_ids b.next_rule_id lo hi room in
    (_, ap (give_rule o req (f ∷ dnr) b) e)

begin_adopted-HasResult :
    (o : Options) (req : Request) (dnr : Fields) (a : Bool × Step)
    → HasRoom a.1.0
    → HasResult (begin_adopted o req dnr a)
begin_adopted-HasResult o req dnr (awaits, (b, installs)) h =
    let left = if awaits then delete_field (codes "user-agent") dnr else dnr in
    let (r, e) = with_rule-HasResult o req left b h in (_, ap (await_all req installs awaits) e)

begin_judged-HasResult :
    (o : Options) (req : Request) (reason : Text) (b : Bridge) (native allowed : Bool)
    → HasRoom b
    → HasResult (begin_judged o req reason b native allowed)
begin_judged-HasResult o req reason b true allowed h = (_, refl)
begin_judged-HasResult o req reason b false false h = (_, refl)
begin_judged-HasResult o req reason b false true h =
    let dnr = dnr_fields [] req.headers in
    unfold begin_allowed in
    begin_adopted-HasResult o req dnr _ (adopt-HasRoom o (field (codes "user-agent") dnr) b h)

-- With the cursor inside the range of per-request ids and fewer ids in use than the range has, a
-- request that begins gets through `#begin` to its first wait or its end, whatever its URL, its
-- headers and the state of the other requests.
pub begin_ends :
    (o : Options) (req : Request) (b : Bridge)
    → per_request_min_id ≤ b.next_rule_id
    → b.next_rule_id < per_request_max_id
    → length b.used_rule_ids < per_request_max_id - per_request_min_id
    → (s : Step) × (begin o req b ≡ some s)
unfolding begin
begin_ends o req b lo hi room =
    begin_judged-HasResult o req _ (record b { inflight = put req.id (begun req) b.inflight }) _ _
      (lo, hi, room)
