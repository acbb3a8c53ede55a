-- ===== src/Bridge/Ledger/Begin.antt =====
-- `#begin` keeps the ledger: the one place where a rule id is taken.
use browsception.Prelude.{
  ℕ, ◌≡◌, Text, List, [], ◌∷◌, Option, none, some, Bool, true, false, refl, arith, ap, sym, codes,
}
use browsception.Prelude.Maps.{get, put, get-put}
use browsception.BridgeRules.{Fields, field}
use browsception.Bridge.{Bridge, Step, Request, Options, Pending, Effect, cancelled, guard}
use browsception.Bridge.RuleIds.{alloc_rule_id, has_id, search_rounds}
use browsception.Bridge.Ledger.{
  IsLedger-same, rule_of-put_same, fail-IsLedger, rule_of_pending, IsLedger-take,
}
use browsception.Bridge.Ledger.Steps.{IsKept, install_rule-IsKept}
use browsception.Dnr.{Rule}
use browsception.Bridge.Requests.{
  with_rule, adopt, begin_adopted, give_rule, begun, begin, await_rules, update, await_all,
  begin_allowed, adopt_ua, update_at, install_base, begin_judged, adopt_at,
}
use browsception.Bridge.RuleIds.Fresh.{search_id_fresh}
use browsception.Bridge.Headers.{dnr_fields}

-- A step that ends keeps the ledger.
abbrev pub IsKeptStep : Option Step → Type 0
IsKeptStep none = Unit
IsKeptStep (some s) = IsKept s.0

abbrev IsKeptRule : Option (Option Rule × Bridge) → Type 0
IsKeptRule none = Unit
IsKeptRule (some r) = IsKept r.1

-- A request that has begun and has no rule yet.
abbrev IsBegun : Request → Bridge → Type 0
IsBegun req b = IsKept b × (get req.id b.inflight ≡ some (begun req))

adopt_at-IsBegun :
    (o : Options) (req : Request) (ua : Text) (b : Bridge) (same adopted : Bool)
    → IsBegun req b
    → IsBegun req (adopt_at o ua b same adopted).1.0
unfolding install_base
adopt_at-IsBegun o req ua b true adopted h = h
adopt_at-IsBegun o req ua b false true h = h
adopt_at-IsBegun o req ua b false false h = h

adopt-IsBegun :
    (o : Options) (req : Request) (ua : Option Text) (b : Bridge)
    → IsBegun req b
    → IsBegun req (adopt o ua b).1.0
adopt-IsBegun o req none b h = h
adopt-IsBegun o req (some ua) b h = unfold adopt_ua in adopt_at-IsBegun o req ua b _ _ h

give_rule-IsKeptRule :
    (o : Options) (req : Request) (dnr : Fields) (b : Bridge) (i : ℕ)
    → has_id i b.used_rule_ids ≡ false
    → IsBegun req b
    → IsKeptRule (give_rule o req dnr b (some i))
give_rule-IsKeptRule o req dnr b i fresh (l, e) =
    let taken = record b { next_rule_id = i; used_rule_ids = i ∷ b.used_rule_ids } in
    let set = λ (st : Pending). record st { rule_id = some i } in
    let same : update req.id set taken
        ≡ record taken { inflight = put req.id (set (begun req)) b.inflight } =
      unfold update in ap (update_at req.id set taken) e in
    rw same (
      IsLedger-take b.inflight b.used_rule_ids req.id i (set (begun req)) (ap rule_of_pending e)
        fresh refl l)

with_rule-IsKeptRule :
    (o : Options) (req : Request) (dnr : Fields) (b : Bridge)
    → IsBegun req b
    → IsKeptRule (with_rule o req dnr b)
with_rule-IsKeptRule o req [] b h = h.0
with_rule-IsKeptRule o req (f ∷ dnr) b h = at (alloc_rule_id b.used_rule_ids b.next_rule_id) refl
  where
    at :
        (i : Option ℕ)
        → alloc_rule_id b.used_rule_ids b.next_rule_id ≡ i
        → IsKeptRule (give_rule o req (f ∷ dnr) b i)
    at none e = tt
    at (some i) e =
        give_rule-IsKeptRule o req (f ∷ dnr) b i
          (search_id_fresh search_rounds b.used_rule_ids b.next_rule_id i
            (unfold alloc_rule_id in e))
          h

await_rules-IsKept :
    (req : Request) (headers : Fields) (awaits : Bool) (r : Option Rule × Bridge)
    → IsKept r.1
    → IsKept (await_rules req headers awaits r).0
await_rules-IsKept req headers true (rule, b) l = l
await_rules-IsKept req headers false (rule, b) l = install_rule-IsKept req headers rule b l

await_all-IsKeptStep :
    (req : Request) (installs : List Effect) (awaits : Bool) (r : Option (Option Rule × Bridge))
    → IsKeptRule r
    → IsKeptStep (await_all req installs awaits r)
await_all-IsKeptStep req installs awaits none l = tt
await_all-IsKeptStep req installs awaits (some r) l = await_rules-IsKept req _ awaits r l

begin_adopted-IsKeptStep :
    (o : Options) (req : Request) (dnr : Fields) (a : Bool × Step)
    → IsBegun req a.1.0
    → IsKeptStep (begin_adopted o req dnr a)
begin_adopted-IsKeptStep o req dnr (awaits, (b, installs)) h =
    await_all-IsKeptStep req installs awaits _ (with_rule-IsKeptRule o req _ b h)

begun-IsBegun :
    (req : Request) (b : Bridge)
    → get req.id b.inflight ≡ none
    → IsKept b
    → IsBegun req (record b { inflight = put req.id (begun req) b.inflight })
begun-IsBegun req b free l = (
  IsLedger-same b.inflight (put req.id (begun req) b.inflight) b.used_rule_ids
      (rule_of-put_same req.id (begun req) b.inflight (sym (ap rule_of_pending free))) l,
  ground (arith, get-put req.id req.id (begun req) b.inflight),
)

begin_judged-IsKeptStep :
    (o : Options) (req : Request) (reason : Text) (b : Bridge) (native allowed : Bool)
    → IsBegun req b
    → IsKeptStep (begin_judged o req reason b native allowed)
begin_judged-IsKeptStep o req reason b true allowed h = fail-IsLedger req.id cancelled _ b h.0
begin_judged-IsKeptStep o req reason b false false h = fail-IsLedger req.id guard _ b h.0
begin_judged-IsKeptStep o req reason b false true h =
    let dnr = dnr_fields [] req.headers in
    unfold begin_allowed in
    begin_adopted-IsKeptStep o req dnr _ (adopt-IsBegun o req (field (codes "user-agent") dnr) b h)

pub begin-IsKeptStep :
    (o : Options) (req : Request) (b : Bridge)
    → get req.id b.inflight ≡ none
    → IsKept b
    → IsKeptStep (begin o req b)
unfolding begin
begin-IsKeptStep o req b free l =
    begin_judged-IsKeptStep o req _ (record b { inflight = put req.id (begun req) b.inflight }) _ _
      (begun-IsBegun req b free l)
