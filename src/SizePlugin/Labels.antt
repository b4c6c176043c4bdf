-- ===== src/SizePlugin/Labels.antt =====
-- pkg/plugins/size/size.go: the labels that a pull request has in the end.
use cicd_operator.Base.{
  In-filterb_iff, Bool-cases, ◌==◌, nat_eq, leb, ◌≤◌, ◌<◌, str, filterb, In, Str, str_beq_iff,
  str_eq, ℕ, ◌≡◌, refl, sym, ◌∙◌, ◌↔◌, ◌⊎◌, inl, inr, Bool, true, false, not, List, [], ◌∷◌, ◌++◌,
  arith,
}
use mathlib.Core.Path.{subst}
use cicd_operator.SizePlugin.{
  Limits, determine_proper_size_label, is_size_label, get_size_labels, LabelRequest, delete_label,
  set_label, total, delete_improper, label_size,
}

-- What the server does with a request: a label is taken off wherever it stands, or put on.
abbrev pub apply_request : LabelRequest → List Str → List Str
apply_request (delete_label l) labels = filterb (λ x. not (x == l)) labels
apply_request (set_label l) labels = labels ++ l ∷ []

abbrev pub apply_all : List LabelRequest → List Str → List Str
apply_all [] labels = labels
apply_all (r ∷ requests) labels = apply_all requests (apply_request r labels)

apply_all-append :
    (rs : List LabelRequest) (r : LabelRequest) (labels : List Str)
    → apply_all (rs ++ r ∷ []) labels ≡ apply_request r (apply_all rs labels)
apply_all-append [] r labels = refl
apply_all-append (q ∷ rs) r labels = apply_all-append rs r (apply_request q labels)

In-snoc : (x a : Str) (l : List Str) → In x (l ++ a ∷ []) ↔ (In x l ⊎ (x ≡ a))
In-snoc x a [] =
    (elim [ inl e ↦ inr e | inr h ↦ absurd h ], elim [ inl h ↦ absurd h | inr e ↦ inl e ])
In-snoc x a (y ∷ l) =
    let rest = In-snoc x a l in
    (
      elim [
        | inl e ↦ inl (inl e)
        | inr h ↦ elim (rest.0 h) [ inl m ↦ inl (inr m) | inr e ↦ inr e ]
      ],
      elim [
        | inl h ↦ elim h [ inl e ↦ inl e | inr m ↦ inr (rest.1 (inl m)) ]
        | inr e ↦ inr (rest.1 (inr e))
      ],
    )

-- The label of a number of lines.
abbrev pub IsSize : Limits → ℕ → Str → Type 0
IsSize c n x =
    ((n ≤ c.s) × (x ≡ str "size/XS"))
    ⊎ (c.s < n)
      × (((n ≤ c.m) × (x ≡ str "size/S"))
          ⊎ (c.m < n)
            × (((n ≤ c.l) × (x ≡ str "size/M"))
                ⊎ (c.l < n)
                  × (((n ≤ c.xl) × (x ≡ str "size/L"))
                      ⊎ (c.xl < n)
                        × (((n ≤ c.xxl) × (x ≡ str "size/XL"))
                            ⊎ (c.xxl < n) × (x ≡ str "size/XXL")))))

proper-IsSize : (c : Limits) (n : ℕ) → IsSize c n (determine_proper_size_label c n)
unfolding determine_proper_size_label
proper-IsSize c n = elim (Bool-cases (leb n c.s)) [
  | inl y ↦ rw y (inl (ground (arith, y), refl))
  | inr a ↦ rw a (
      inr (
        ground (arith, a),
        elim (Bool-cases (leb n c.m)) [
          | inl y ↦ rw y (inl (ground (arith, y), refl))
          | inr b ↦ rw b (
              inr (
                ground (arith, b),
                elim (Bool-cases (leb n c.l)) [
                  | inl y ↦ rw y (inl (ground (arith, y), refl))
                  | inr d ↦ rw d (
                      inr (
                        ground (arith, d),
                        elim (Bool-cases (leb n c.xl)) [
                          | inl y ↦ rw y (inl (ground (arith, y), refl))
                          | inr e ↦ rw e (
                              inr (
                                ground (arith, e),
                                elim (Bool-cases (leb n c.xxl)) [
                                  | inl y ↦ rw y (inl (ground (arith, y), refl))
                                  | inr f ↦ rw f (inr (ground (arith, f), refl))
                                ],
                              ))
                        ],
                      ))
                ],
              ))
        ],
      ))
]

module _ (refuses : LabelRequest → Bool) (accepts : (r : LabelRequest) → refuses r ≡ false) where
  abbrev requests_of : Str → List Str → List LabelRequest
  requests_of proper labels = (delete_improper refuses proper labels).0

  no_failure : (proper : Str) (ls : List Str) → (delete_improper refuses proper ls).2 ≡ false
  unfolding delete_improper
  no_failure proper [] = refl
  no_failure proper (l ∷ ls) = ground (arith, accepts (delete_label l), no_failure proper ls)

  met_iff :
      (proper : Str) (ls : List Str) → ((delete_improper refuses proper ls).1 ≡ true) ↔ In proper ls
  unfolding delete_improper
  met_iff proper [] = ((λ h. cc h), λ m. absurd m)
  met_iff proper (l ∷ ls) =
      let rest = met_iff proper ls in
      (
        (λ h. elim (Bool-cases (l == proper)) [
          | inl e ↦ inl (sym ((str_beq_iff l proper).0 e))
          | inr n ↦ inr (rest.0 (ground (arith, h, n, accepts (delete_label l))))
        ]),
        elim [
          | inl e ↦ ground (arith, (str_beq_iff l proper).1 (sym e))
          | inr m ↦ ground (arith, rest.1 m, accepts (delete_label l))
        ],
      )

  same_requests :
      (proper l : Str) (ls : List Str)
      → (l == proper) ≡ true
      → requests_of proper (l ∷ ls) ≡ requests_of proper ls
  unfolding delete_improper
  same_requests proper l ls e = ground (arith, e)

  one_more :
      (proper l : Str) (ls : List Str)
      → (l == proper) ≡ false
      → requests_of proper (l ∷ ls) ≡ delete_label l ∷ requests_of proper ls
  unfolding delete_improper
  one_more proper l ls e = ground (arith, e, accepts (delete_label l))

  -- The labels that are left: all but the improper ones of the list.
  deleted_iff :
      (x proper : Str) (ls labels : List Str)
      → In x (apply_all (requests_of proper ls) labels) ↔ (In x labels × (In x ls → x ≡ proper))
  deleted_iff x proper [] labels = unfold delete_improper in ((λ m. (m, λ h. absurd h)), λ h. h.0)
  deleted_iff x proper (l ∷ ls) labels = elim (Bool-cases (l == proper)) [
    | inl e ↦
        let q = (str_beq_iff l proper).0 e in
        let ih = deleted_iff x proper ls labels in
        rw (same_requests proper l ls e) (
          (λ m. ((ih.0 m).0, elim [ inl h ↦ h ∙ q | inr h ↦ (ih.0 m).1 h ])),
          λ h. ih.1 (h.0, λ k. h.1 (inr k)),
        )
    | inr n ↦
        let ih = deleted_iff x proper ls (filterb (λ y. not (y == l)) labels) in
        let f = In-filterb_iff (λ (y : Str). not (y == l)) x labels in
        rw (one_more proper l ls n) (
          (λ m.
              let (k, g) = ih.0 m in
              let (i, d) = f.0 k in
              (
                i,
                elim [ inl h ↦ absurd (ground (arith, d, (str_beq_iff x l).1 h)) | inr h ↦ g h ],
              )),
          λ h. ih.1 (f.1 (h.0, other x proper l (h.1) n), λ k. h.1 (inr k)),
        )
  ]
    where
      other :
          (x proper l : Str)
          → (x ≡ l ⊎ In x ls → x ≡ proper)
          → (l == proper) ≡ false
          → not (x == l) ≡ true
      other x proper l h n = elim (Bool-cases (x == l)) [
        | inl e ↦
            let q = (str_beq_iff x l).0 e in
            let r = (str_beq_iff l proper).1 (sym q ∙ h (inl q)) in absurd (cc (n, r))
        | inr e ↦ ground (arith, e)
      ]

  module _ (proper : Str) (labels : List Str) (x : Str) where
    abbrev sizes : List Str
    sizes = filterb is_size_label labels

    abbrev Fits : Type 0
    Fits = (x ≡ proper) ⊎ (In x labels × (is_size_label x ≡ false))

    left-Fits : In x (apply_all (requests_of proper sizes) labels) → Fits
    left-Fits m =
        let (k, h) = (deleted_iff x proper sizes labels).0 m in
        elim (Bool-cases (is_size_label x)) [
          | inl e ↦ inl (h ((In-filterb_iff is_size_label x labels).1 (k, e)))
          | inr e ↦ inr (k, e)
        ]

    other-left :
        In x labels × (is_size_label x ≡ false) → In x (apply_all (requests_of proper sizes) labels)
    other-left h =
        (deleted_iff x proper sizes labels).1
          (h.0, λ k. cc (((In-filterb_iff is_size_label x labels).0 k).1, h.1))

    proper-left : In proper sizes → x ≡ proper → In x (apply_all (requests_of proper sizes) labels)
    proper-left m e = (deleted_iff x proper sizes labels).1 (
      subst (λ y. In y labels) (sym e) ((In-filterb_iff is_size_label proper labels).0 m).0,
      λ k. e,
    )

    kept-Fits : In proper sizes → In x (apply_all (requests_of proper sizes) labels) ↔ Fits
    kept-Fits m = (left-Fits, elim [ inl e ↦ proper-left m e | inr h ↦ other-left h ])

    added-Fits : In x (apply_all (requests_of proper sizes ++ set_label proper ∷ []) labels) ↔ Fits
    added-Fits =
        let s = In-snoc x proper (apply_all (requests_of proper sizes) labels) in
        rw (apply_all-append (requests_of proper sizes) (set_label proper) labels) (
          (λ h. elim (s.0 h) [ inl m ↦ left-Fits m | inr e ↦ inl e ]),
          elim [ inl e ↦ s.1 (inr e) | inr h ↦ s.1 (inl (other-left h)) ],
        )

  -- Where the server refuses nothing, the plugin ends without an error, and the labels are then the old
  -- ones that are no size labels and the one that fits the number of changed lines: that of the first limit, from the
  -- smallest size on, that the number is not above, or the largest.
  pub label_size_labels :
      (limits : Limits) (changes : List ℕ) (labels : List Str) (x : Str)
      → ((label_size refuses limits changes labels).1 ≡ false)
        × (In x (apply_all (label_size refuses limits changes labels).0 labels) ↔ (
            (x ≡ determine_proper_size_label limits (total changes))
            ⊎ (In x labels × (is_size_label x ≡ false))))
        × IsSize limits (total changes) (determine_proper_size_label limits (total changes))
  unfolding label_size get_size_labels
  label_size_labels limits changes labels x =
      let proper = determine_proper_size_label limits (total changes) in
      let ls = filterb is_size_label labels in
      let ok = no_failure proper ls in
      let met = met_iff proper ls in
      elim (Bool-cases ((delete_improper refuses proper ls).1)) [
        | inl e ↦
            let k = kept-Fits proper labels x (met.0 e) in
            (ground (arith, ok, e), rw (ok, e) k, proper-IsSize limits (total changes))
        | inr e ↦
            let k = added-Fits proper labels x in
            (
              ground (arith, ok, e, accepts (set_label proper)),
              rw (ok, e) k,
              proper-IsSize limits (total changes),
            )
      ]
