-- ===== src/Launch/Rules.antt =====
-- Orders of the launcher and what they leave as it is (launchers/gonetem_launcher.py).
use satgonetem.Base.{ℕ, Bool, Option, none, some, List, [], ◌∷◌, Text, Result, Exception}
use satgonetem.Acts.{Act, pure, rescue}
use satgonetem.Acts.Keeps.{Keeps, keeping}
use satgonetem.Acts.Leads.{
  Leads, Anything, Leads_of_Keeps, Leads-weaker, pure-Leads, rescue-Leads, Leads_anywhere,
}
use satgonetem.Launch.{
  Message, node_count, link_count, node_start, link_setup, node_loadconfig, other, Order, Reply,
  nothing, id_of_project, messages, closings, process, Server, Launcher, Progress, with_outside,
  ask,
}
use satgonetem.Launch.Projects.{advance, call_back, tell, finish_stream, follow, follow_reply}

-- What a request says nothing about.
abbrev pub IsInner : {K : Type 0} → (Launcher K → Type 0) → Type 0
IsInner {K} P = (s : Launcher K) (k : K) → P s → P (record s { outside = k })

module _ {K : Type 0} (server : Server K) (has_callback : Bool) where
  asked :
      (P : Launcher K → Type 0) (s : Launcher K) (r : K × Result Reply)
      → IsInner P
      → P s
      → P (with_outside s r).0
  asked P s (k, r) inner h = inner s k h

  module _ (P : Launcher K → Type 0) (inner : IsInner P) where
    pub ask-Inner : (q : Order) → Keeps P (ask server q)
    unfolding ask
    ask-Inner q = record { holds = λ s h. asked P s (server q s.outside) inner h }

    pub call_back-Inner : (code : Text) (m n : ℕ) → Keeps P (call_back server has_callback code m n)
    call_back-Inner code m n = search (keeping, ask-Inner) depth 10

    tell-Inner : (m : Message) (p : Progress) → Keeps P (tell server has_callback m p)
    tell-Inner (node_count n) p = call_back-Inner _ _ _
    tell-Inner (link_count n) p = call_back-Inner _ _ _
    tell-Inner node_start p = call_back-Inner _ _ _
    tell-Inner link_setup p = call_back-Inner _ _ _
    tell-Inner node_loadconfig p = call_back-Inner _ _ _
    tell-Inner other p = search keeping

    finish_stream-Inner : (e : Option Exception) → Keeps P (finish_stream server has_callback e)
    finish_stream-Inner none = search keeping
    finish_stream-Inner (some x) = search keeping

    follow-Inner :
        (p : Progress) (ms : List Message) (e : Option Exception)
        → Keeps P (follow server has_callback p ms e)
    follow-Inner p [] e = finish_stream-Inner e
    follow-Inner p (m ∷ ms) e =
        search (keeping, tell-Inner m (advance m p), follow-Inner (advance m p) ms e)

    pub follow_reply-Inner : (r : Reply) → Keeps P (follow_reply server has_callback r)
    follow_reply-Inner (messages ms e) = follow-Inner _ ms e
    follow_reply-Inner nothing = search keeping
    follow_reply-Inner (id_of_project i) = search keeping
    follow_reply-Inner (closings ms e) = search keeping
    follow_reply-Inner (process n t) = search keeping

  -- What a request leaves, if it returns; nothing is said where it raises.
  pub inner-Leads :
      {A : Type 0} (P : Launcher K → Type 0) (act : Act (Launcher K) A)
      → Keeps P act
      → Leads P act (λ _. P) Anything
  inner-Leads P act k =
      Leads-weaker P (λ _. P) (λ _. P) P Anything act (λ a s h. h) (λ s h. tt)
        (Leads_of_Keeps P act k)

  -- An act whose exceptions are caught raises none.
  pub quiet-Leads :
      (F : Launcher K → Type 0) (act : Act (Launcher K) (Unit {0}))
      → Leads Anything (rescue act (λ _. pure tt)) (λ _. Anything) F
  quiet-Leads F act =
      rescue-Leads Anything (λ _. Anything) Anything F act (λ _. pure tt)
        (Leads_anywhere Anything act) (λ x. pure-Leads Anything (λ _. Anything) F tt (λ s h. tt))
