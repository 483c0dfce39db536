-- ===== src/Session/Clipboard/Calls.antt =====
-- The calls that the runtime makes on a clipboard session, as data, and sequences of them.
use tevir.Prelude.{ℕ, List, [], ◌∷◌, Result, ok, err}
use tevir.Protocol.Clipboard.{ClipboardGeneration, ClipboardText, ClipboardControl}
use tevir.Session.Clipboard.{ClipboardSession, ClipboardAction, ClipboardSessionError, Outcome}
use tevir.Session.Clipboard.Methods

pub data Call : Type 0 where
  changes : (text : List ℕ) → Call
  controls : ClipboardControl → Call
  transfers : ClipboardText → Call
  confirms : ClipboardGeneration → Call

module _ (sha256 : List ℕ → List ℕ) where
  unfoldable pub step : ClipboardSession → Call → Outcome
  step s (changes text) = Methods.local_changed sha256 s text
  step s (controls control) = Methods.receive_control sha256 s control
  step s (transfers transfer) = Methods.receive_transfer sha256 s transfer
  step s (confirms generation) = Methods.confirm_applied sha256 s generation

  unfoldable pub run : ClipboardSession → List Call → ClipboardSession
  run s [] = s
  run s (c ∷ cs) = run (step s c).0 cs

-- The texts that a call hands to the native clipboard.
abbrev pub handed : List ClipboardAction → List ClipboardText
handed [] = []
handed (ClipboardAction.send_control control ∷ actions) = handed actions
handed (ClipboardAction.send_transfer transfer ∷ actions) = handed actions
handed (ClipboardAction.apply_remote transfer ∷ actions) = transfer ∷ handed actions

abbrev pub handed_by : Result (List ClipboardAction) ClipboardSessionError → List ClipboardText
handed_by (ok actions) = handed actions
handed_by (err e) = []
