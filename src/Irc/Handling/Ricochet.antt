-- ===== src/Irc/Handling/Ricochet.antt =====
-- What `RicochetIrcServer` makes of the virtual methods (src/irc/RicochetIrcServer.cpp).
use ricochet_irc.Irc.State.{client}
use ricochet_irc.Irc.Control.{Setup}
use ricochet_irc.Irc.Commands.{ricochet_hooks}
use ricochet_irc.Irc.Evolution.{Policy}
use ricochet_irc.Irc.Evolution.Control.{user_logged_in-Evolves}
use ricochet_irc.Irc.Evolution.Commands.{privmsg_hook-Evolves}
use ricochet_irc.Irc.Handling.{Lawful}

pub ricochet_hooks-Lawful : (setup : Setup) (p : Policy) → Lawful (ricochet_hooks setup) p
ricochet_hooks-Lawful setup p = record {
  privmsg_hook = λ c target text s own orders.
      privmsg_hook-Evolves setup p orders (client c) target text s own;
  user_logged_in = user_logged_in-Evolves setup p;
}
