-- ===== src/Server/Events/Going.antt =====
-- The functions of the table of connections, where the event loop calls them.
use simple_x509_authenticate.Common.Result.{ok, err, abort, Yields, Ends}
use simple_x509_authenticate.Server.Connections.{Serve}
use simple_x509_authenticate.Server.Events.{going}

-- What a function of the table of connections does in the event loop.
pub going-Ends :
    {E A : Type 0} (Q : E → Type 0) (P R : A → Type 0) (m : Serve A)
    → ((a : A) → P a → R a)
    → Yields P m
    → Ends Q R (going m)
unfolding going
going-Ends Q P R (ok a) f h = f a h
going-Ends Q P R (err e) f h = elim h [ ]
going-Ends Q P R (abort x) f h = h

pub going-Yields :
    (E : Type 0) {A : Type 0} (P : A → Type 0) (m : Serve A)
    → Yields P m
    → Yields {E = E} P (going m)
unfolding going
going-Yields E P (ok a) h = h
going-Yields E P (err e) h = elim h [ ]
going-Yields E P (abort x) h = h
