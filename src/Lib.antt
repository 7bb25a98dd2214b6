-- ===== src/Lib.antt =====
-- The robot client for the card game Dou Dizhu (new_robot_client). A robot logs in to the game
-- server, enters a game, and calls and plays cards; to choose a play it splits its cards into hands.
--
-- Cards: new_robot_client/include/RobotConfig.h and the card functions of
-- new_robot_client/src/AIUtils.cpp. `Cards.Hands` has the kinds of hands (`HandType`), a hand
-- (`Hand`) and the functions on one hand (getCardNumber, isHandHigherThan, containsControl,
-- calHandControl). `Cards.Points` has the counts by point, `int cards[CARD_POINT_NUM]`, as a
-- function of the index, with cardToPoint and cardVecToPointArr, whose write at -1 is a fault.
-- `Cards.HandMap` has `std::map<HandType, std::vector<Hand> >` as a list of entries in the order of
-- the keys, and the number of cards of a point in it. `Cards.Scan` has the searches through the
-- points (getLowestPoint, isHighestSolo, hasUniLowestSolo, getLowestControl and their like), and
-- `Cards.Picks` the choices of a hand out of a map (findMostCardsHand, findLowestHandNotSolo and
-- findLowestHandNotSoloAndNoControl).
--
-- Split: splitCardsToHandsKind1 to splitCardsToHandsKind5 and all that they call: `Split.Bomb`
-- (getBomb, getTrio), `Split.Chains` (getTrioChain, getPairChain, optimizePairChain), `Split.Solo`
-- (getSoloChain in `Five`, expandSoloChain in `Grow`, optimizeSoloChain in `Trim`), `Split.Normal`
-- (getNormalHand), `Split.Kicker` (findKickerForTrioOrTrioChain) and `Split.Kinds`. A function that
-- changes `cards` and `handMap` takes a `Deal` and returns one; one that changes `cards` and a
-- vector takes a `Work`.
--
-- Choice: how a split is chosen. `Choice.Charge` has isChargeHand and getHighestSoloChain,
-- `Choice.Summary` HandsMapSummary, getHandsMapSummary and compareHandMapSummary, and `Choice.Sort`
-- sortHandsWithBestKind and sortHandsLordOnly1Card. isChargeHand makes entries of the map over which
-- getHandsMapSummary is running: the loop looks up each key in turn in the map as it is then. A
-- read outside SOLO_CHAIN_CHARGE_LEN is a fault.
--
-- Search: `Search.Higher` has findHigherHandFromPoints and `Search.Kickers` findKickerFromPoints. The
-- vectors of keys and the five kickers are lists, and a read or a write outside them is a fault. A
-- run of the search for a chain moves on, so twelve rounds suffice for the twelve points up to the
-- ace.
--
-- Recognize: handToPointsArray and getHand. A count above four, for which getHand writes outside
-- its table, is a fault, and so is a chain of more than five trios with kickers, which are written
-- outside their array; no one holds so many cards.
--
-- Session: RobotBase.cpp and RobotTask.cpp of new_robot_client/src. `Session.State` has the robot
-- and the message node, `Session.Wire` the messages and SerializeSendMsg, `Session.Login`,
-- `Session.Entry` and `Session.Play` the handlers, and `Session.Process` RobotProcess and
-- AnalysisAndDecision. A handler takes the robot and the node and returns them with its result;
-- callbacks are effects, in order. The generated protobuf code and atoi are the record `Protocol`,
-- what `rand()` gives is an argument, and the card player that the session calls (OGLordRobotAI) is
-- the record `AiOps`; no law is assumed of them. A handler that divides by zero, reads outside a
-- message's field, prints a card of no point (printCardInfo writes at -1 then) or makes the card
-- player run into undefined behaviour has no result.
--
-- Player: new_robot_client/src/OGLordRobotAI.cpp. `Player.State` has its fields, `Player.Controls`
-- calControl (AIUtils.cpp), `Player.Game` the deal, the calls, the lord and the plays that it hears
-- of, `Player.Take` takeOutHand, RecoveryHandCards, RemoveExtraCards and IsSameCardsInfo,
-- `Player.Decide` the choice at level 0 and the judgements (isDanger, isGood, isFirstHalf,
-- isGoodFarmer), `Player.Turn` RbtOutGetTakeOutCard, and `Player.Resume` RbtResetData, RbtInSetSeat,
-- RbtInSetCard and RbtInTakeOutRecord. takeOutLvl1 and takeOutHighLvl are parameters, any functions
-- that give a hand and the parts of the state that they sort anew. A seat outside the array and a
-- card of no point are faults. `Player.Ops` puts it behind the interface `AiOps`, and
-- `Player.Refused` has the session and the card player together. The loop of calControl takes an
-- own card in each round, so as many rounds as own cards suffice.
--
-- Pool: new_robot_client/src/EventProcess.cpp. `Pool` has the lists of free and of connected robots,
-- a robot being its number, and the connections by number, with AddRobot, DelRobot,
-- DelRobotAndCloseConnection, CloseEvent and InitHeaderRobotConnection, and the closing of a
-- connection in TcpEventServer.cpp; `Pool.Start` has initParam. What CreateConnection gives is an
-- argument; that it is not in use already is a named hypothesis.
--
-- Header: new_robot_client/src/RobotHeader.cpp. `Header` has the handlers and requests of the header
-- robot and its AnalysisAndDecision. The time is an argument, and the protobuf code for its messages
-- the record `HeaderProtocol`.
--
-- Socket: `Socket.Reader` has OnReadEvent of EventProcess.cpp and GetReadBufferData of
-- Connection.cpp. bufferevent_read is the removal of bytes from the front of the buffer, and the
-- loop's test is on the length as an `int` of 32 bits. What
-- RobotProcess makes of a message and what a new array holds are parameters. Each round takes a
-- byte, so the length of the buffer is enough fuel.
--
-- `int` is unbounded here: the counts, keys and lengths of at most 54 cards stay small. A field that
-- the source leaves unset is 0. The while loops run on fuel: over the runs of trios and pairs the
-- fuel is the last point and two, since each round moves on; in getSoloChain it is the number of
-- cards up to the ten and nine more, since each round takes a card there or moves on. Loops with a
-- counter recur on the rounds that are left.
--
-- Not modelled: logging, and printing apart from that fault; libevent's sockets and timers
-- (TcpEventServer.cpp, log.cpp); the configuration (confaccess.cpp); the buckets of idle connections
-- (EventProcess.cpp); the choices of OGLordRobotAI.cpp at level 1 and above; and robot_client, an
-- earlier version of the program.
mod Prelude
pub mod Cards
pub mod Split
pub mod Session
pub mod Recognize
pub mod Choice
pub mod Search
pub mod Player
pub mod Socket
pub mod Pool
pub mod Header
mod Tests
