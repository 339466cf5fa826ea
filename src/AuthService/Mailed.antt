-- ===== src/AuthService/Mailed.antt =====
-- Lemmas on the calls of src/module/auth/auth.service.ts that issue a code and send it.
use lexi_ledger_backend.Base.{◌≡◌, refl, sym, ap, [], ◌∷◌, ◌++◌}
use lexi_ledger_backend.Platform.{World, Action, Result, Mail, ok, err, pure, modify, ◌>>=◌, ◌>>◌}
use lexi_ledger_backend.OneTimeTokens.{Issued}

-- Sending what was issued: if all went well, there is a code, and one email with it.
pub sent_after :
    (issue : Action Issued) (mail : Issued → Mail) (w : World) {w' : World}
    → (issue >>= λ i. modify (λ v. record v { sent = v.sent ++ mail i ∷ [] })) w ≡ (ok tt, w')
    → (i : Issued) × (issue w ≡ (ok i, (issue w).1))
      × (w' ≡ record (issue w).1 { sent = (issue w).1.sent ++ mail i ∷ [] })
sent_after issue mail w {w'} h = after (issue w).0 (issue w).1 refl h
  where
    after :
        (r : Result Issued) (v : World)
        → issue w ≡ (r, v)
        → elim r as (λ _. Result (Unit {0}) × World) [
          | ok i ↦ (ok tt, record v { sent = v.sent ++ mail i ∷ [] })
          | err e ↦ (err e, v)
        ]
          ≡ (ok tt, w')
        → (i : Issued) × (issue w ≡ (ok i, v)) × (w' ≡ record v { sent = v.sent ++ mail i ∷ [] })
    after (ok i) v e h = (i, e, ap (λ x. x.1) (sym h))
    after (err x) v e h = absurd (cc)

-- An action whose value is replaced.
pub done_of :
    {A : Type 0} (m : Action (Unit {0})) (a : A) (w : World) {reply : A} {w' : World}
    → (m >> pure a) w ≡ (ok reply, w')
    → m w ≡ (ok tt, w')
done_of {A = A} m a w {reply} {w'} h = replaced (m w).0 (m w).1 h
  where
    replaced :
        (r : Result (Unit {0})) (v : World)
        → elim r as (λ _. Result A × World) [ ok _ ↦ (ok a, v) | err e ↦ (err e, v) ]
          ≡ (ok reply, w')
        → ◌≡◌ {A = Result (Unit {0}) × World} (r, v) (ok tt, w')
    replaced (ok _) v h = ap (λ x. (ok tt, x)) (ap (λ x. x.1) h)
    replaced (err e) v h = absurd (cc)
