-- ===== src/Statuses/Esign.antt =====
-- The statuses of an e-signature (app/domain/esign.py).
use inpockets.Base.{Bool, true, false}

pub data EsignStatus : Type 0 where
  initiated pending signed failed expired manual_review : EsignStatus

-- The table `ESIGN_TRANSITIONS`, and `can_transition`.
unfoldable pub can_transition : EsignStatus → EsignStatus → Bool
can_transition initiated pending = true
can_transition initiated failed = true
can_transition initiated expired = true
can_transition initiated manual_review = true
can_transition pending signed = true
can_transition pending failed = true
can_transition pending expired = true
can_transition pending manual_review = true
can_transition expired manual_review = true
can_transition failed manual_review = true
can_transition manual_review signed = true
can_transition manual_review failed = true
can_transition _ _ = false

-- `LIVE_STATUSES`
unfoldable pub is_live : EsignStatus → Bool
is_live failed = false
is_live expired = false
is_live _ = true
