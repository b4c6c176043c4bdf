-- ===== src/GitClient/Only.antt =====
-- Actions whose requests all meet a predicate.
use cicd_operator.Base.{
  if◌then◌else◌, nat_eq, All, Str, str_eq, ℕ, ◌≡◌, refl, Bool, true, false, Option, none, some,
  List, [], ◌∷◌,
}
use cicd_operator.GitClient.{
  Result, ok, err, Request, Server, Act, ◌>>=◌, ◌>>◌, finish, ask, send, send_delete,
}

module _ (P : Request → Type 0) where
  abbrev pub Only : {A : Type 0} → Act A → Type 0
  Only m = (log : List Request) → All P log → All P (m log).1

  after :
      {A B : Type 0} (f : A → Act B) (r : Result A) (log : List Request)
      → All P log
      → ((a : A) → r ≡ ok a → Only (f a))
      → (let q : Result B × List Request = elim r [ ok a ↦ f a log | err e ↦ (err e, log) ] in
          All P q.1)
  after f (ok a) log h g = g a refl log h
  after f (err e) log h g = h

  pub Only-bind :
      {A B : Type 0} (m : Act A) (f : A → Act B) → Only m → ((a : A) → Only (f a)) → Only (m >>= f)
  Only-bind m f h g log all = after f (m log).0 (m log).1 (h log all) (λ a e. g a)

  pub Only-ask :
      {A B : Type 0} (r : Result A) (f : A → Act B)
      → ((a : A) → r ≡ ok a → Only (f a))
      → Only (ask r >>= f)
  Only-ask r f g log all = after f r log all g

  pub Only-if :
      {A : Type 0} (b : Bool) (m k : Act A)
      → (b ≡ true → Only m)
      → (b ≡ false → Only k)
      → Only (if b then m else k)
  Only-if true m k h g = h refl
  Only-if false m k h g = g refl

  pub Only-finish : Only finish
  Only-finish log all = all

  pub Only-send : (server : Server) (r : Request) → P r → Only (send server r)
  Only-send server r h log all = (h, all)

  pub Only-send_delete :
      (server : Server) (id : ℕ) (label : Str)
      → P (Request.delete_label id label)
      → Only (send_delete server id label)
  Only-send_delete server id label h log all = (h, all)

  pub Only-send-then :
      (server : Server) (r : Request) (k : Act (Unit {0}))
      → P r
      → Only k
      → Only (send server r >> k)
  Only-send-then server r k h g = Only-bind (send server r) (λ _. k) (Only-send server r h) (λ _. g)

  pub Only-send_delete-then :
      (server : Server) (id : ℕ) (label : Str) (k : Act (Unit {0}))
      → P (Request.delete_label id label)
      → Only k
      → Only (send_delete server id label >> k)
  Only-send_delete-then server id label k h g =
      Only-bind (send_delete server id label) (λ _. k) (Only-send_delete server id label h) (λ _. g)

  pub Only-list :
      {A B : Type 0} (l : List A) (m : Act B) (k : A → List A → Act B)
      → Only m
      → ((a : A) (t : List A) → Only (k a t))
      → Only (let q : Act B = elim l [ [] ↦ m | a ∷ t ↦ k a t ] in q)
  Only-list [] m k h g log all = h log all
  Only-list (a ∷ t) m k h g log all = g a t log all

  pub Only-option :
      {A B : Type 0} (o : Option A) (m : Act B) (k : A → Act B)
      → (o ≡ none → Only m)
      → ((a : A) → o ≡ some a → Only (k a))
      → Only (let q : Act B = elim o [ none ↦ m | some a ↦ k a ] in q)
  Only-option none m k h g log all = h refl log all
  Only-option (some a) m k h g log all = g a refl log all
